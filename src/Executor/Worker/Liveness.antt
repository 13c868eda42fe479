-- ===== src/Executor/Worker/Liveness.antt =====
-- The worker runs the commands that it is given, as long as it is not stopped.
use orbis_agent_desktop.Base.{
  ℕ, suc, ◌+◌, ◌-◌, ◌*◌, ◌≤◌, ◌<◌, ◌≡◌, refl, sym, ap, ◌∙◌, Bool, true, false, List, [], ◌∷◌, ◌++◌,
  Text, length, length-append, append-nil, append_assoc, arith, tests, inl, inr, Bool-cases, ltb,
  ltb→lt, All, append-nil,
}
use orbis_agent_desktop.Executor.Worker.{
  Point, checking, waiting, draining, executing, ended, Worker, Event, command, stop, work, started,
  woken, take_front, work_at, step, run,
}
use orbis_agent_desktop.Executor.Worker.Order.{Inv, in_hand, step-Inv, run-Inv, run-started-Inv}

abbrev pub is_stop : Event → Bool
is_stop (command payload) = false
is_stop stop = true
is_stop work = false

-- How often the worker has its turn.
abbrev pub turns : List Event → ℕ
turns [] = 0
turns (command payload ∷ es) = turns es
turns (stop ∷ es) = turns es
turns (work ∷ es) = suc (turns es)

-- The turns until the worker finishes a command, at most.
abbrev rank : Point → ℕ
rank checking = 3
rank waiting = 2
rank draining = 1
rank (executing payload) = 0
rank ended = 0

abbrev need : ℕ → Worker → ℕ
need m w = 2 * (m - length w.executed) + rank w.point

rank-woken : (queue : List Text) → 0 < length queue → rank (woken false queue) ≡ 1
unfolding woken
rank-woken [] h = absurd (omega arith)
rank-woken (payload ∷ queue) h = refl

need-take_front :
    (m : ℕ) (w : Worker) (queue : List Text)
    → 0 < length queue
    → need m (take_front w queue) ≡ 2 * (m - length w.executed)
unfolding take_front
need-take_front m w [] h = absurd (omega arith)
need-take_front m w (payload ∷ queue) h = omega arith

stop_requested-take_front :
    (w : Worker) (queue : List Text) → (take_front w queue).stop_requested ≡ w.stop_requested
unfolding take_front
stop_requested-take_front w [] = refl
stop_requested-take_front w (payload ∷ queue) = refl

executed-take_front : (w : Worker) (queue : List Text) → (take_front w queue).executed ≡ w.executed
unfolding take_front
executed-take_front w [] = refl
executed-take_front w (payload ∷ queue) = refl

accepted-take_front : (w : Worker) (queue : List Text) → (take_front w queue).accepted ≡ w.accepted
unfolding take_front
accepted-take_front w [] = refl
accepted-take_front w (payload ∷ queue) = refl

-- A turn changes neither the flag nor what was accepted, and undoes no command.
work_at-kept :
    (w : Worker) (p : Point)
    → ((work_at w p).stop_requested ≡ w.stop_requested)
      × ((work_at w p).accepted ≡ w.accepted)
      × (length w.executed ≤ length (work_at w p).executed)
unfolding work_at
work_at-kept w checking = (refl, refl, omega arith)
work_at-kept w waiting = (refl, refl, omega arith)
work_at-kept w draining = (
  stop_requested-take_front w w.command_queue,
  accepted-take_front w w.command_queue,
  rw (executed-take_front w w.command_queue) (omega arith),
)
work_at-kept w (executing payload) =
    (refl, refl, omega (arith, length-append w.executed (payload ∷ [])))
work_at-kept w ended = (refl, refl, omega arith)

-- Between two commands, one that has not run is in the queue.
queued :
    (m : ℕ) (w : Worker)
    → Inv w
    → in_hand w.point ≡ []
    → m ≤ length w.accepted
    → length w.executed < m
    → 0 < length w.command_queue
queued m w i e a l =
    let fifo : w.accepted ≡ w.executed ++ w.command_queue = (rw e at i.fifo) in
    omega (arith, ap length fifo, length-append w.executed w.command_queue, a, l)

-- Where a command that was accepted has not run, a turn brings it nearer.
work_at-need :
    (m : ℕ) (w : Worker) (p : Point)
    → w.point ≡ p
    → Inv w
    → w.stop_requested ≡ false
    → m ≤ length w.accepted
    → length w.executed < m
    → need m (work_at w p) < need m w
unfolding work_at
work_at-need m w checking e i s a l = rw s (rw e (omega arith))
work_at-need m w waiting e i s a l =
    rw s (rw e (rw (rank-woken w.command_queue (queued m w i (rw e refl) a l)) (omega arith)))
work_at-need m w draining e i s a l =
    rw e (rw (need-take_front m w w.command_queue (queued m w i (rw e refl) a l)) (omega arith))
work_at-need m w (executing payload) e i s a l =
    rw e (omega (arith, length-append w.executed (payload ∷ []), l))
work_at-need m w ended e i s a l = let q : w.stop_requested ≡ true = i.returned (rw e refl) in cc

step-kept :
    (w : Worker) (e : Event)
    → is_stop e ≡ false
    → w.stop_requested ≡ false
    → ((step w e).stop_requested ≡ false)
      × (length w.accepted ≤ length (step w e).accepted)
      × (length w.executed ≤ length (step w e).executed)
unfolding step
step-kept w (command payload) h s =
    (s, omega (arith, length-append w.accepted (payload ∷ [])), omega arith)
step-kept w stop h s = cc
step-kept w work h s = let (a, b, c) = work_at-kept w w.point in (a ∙ s, rw b (omega arith), c)

executed-run :
    (w : Worker) (es : List Event)
    → All (λ e. is_stop e ≡ false) es
    → w.stop_requested ≡ false
    → length w.executed ≤ length (run w es).executed
unfolding run
executed-run w [] h s = omega arith
executed-run w (e ∷ es) h s =
    let (a, b, c) = step-kept w e h.0 s in omega (arith, c, executed-run (step w e) es h.1 a)

step-need :
    (m : ℕ) (w : Worker) (e : Event) (es : List Event)
    → Inv w
    → is_stop e ≡ false
    → w.stop_requested ≡ false
    → m ≤ length w.accepted
    → length w.executed < m
    → need m w ≤ turns (e ∷ es)
    → need m (step w e) ≤ turns es
unfolding step
step-need m w (command payload) es i h s a l k = k
step-need m w stop es i h s a l k = cc
step-need m w work es i h s a l k = omega (arith, work_at-need m w w.point refl i s a l)

reaches :
    (m : ℕ) (w : Worker) (es : List Event)
    → Inv w
    → All (λ e. is_stop e ≡ false) es
    → w.stop_requested ≡ false
    → m ≤ length w.accepted
    → need m w ≤ turns es
    → m ≤ length (run w es).executed
unfolding run
reaches m w [] i h s a k = omega arith
reaches m w (e ∷ es) i h s a k = elim (Bool-cases (ltb (length w.executed) m)) [
  | inr l ↦ grind (tests, executed-run w (e ∷ es) h s)
  | inl l ↦
      let (s', a', c) = step-kept w e h.0 s in
      reaches m (step w e) es (step-Inv w e i) h.1 s' (omega (arith, a'))
        (step-need m w e es i h.0 s a (ltb→lt _ _ l) k)
]

-- `xs` starts with `zs`.
starts :
    (xs ys zs ws : List Text)
    → xs ++ ys ≡ zs ++ ws
    → length zs ≤ length xs
    → (more : List Text) × (xs ≡ zs ++ more)
starts xs ys [] ws e h = (xs, refl)
starts [] ys (z ∷ zs) ws e h = absurd (omega arith)
starts (x ∷ xs) ys (z ∷ zs) ws e h =
    let p : x ≡ z = cc in
    let q : xs ++ ys ≡ zs ++ ws = cc in
    let (more, r) = starts xs ys zs ws q (omega arith) in (more, rw p (ap (λ l. z ∷ l) r))

accepted-step :
    (w : Worker) (e : Event) → (more : List Text) × ((step w e).accepted ≡ w.accepted ++ more)
unfolding step
accepted-step w (command payload) = (payload ∷ [], refl)
accepted-step w stop = ([], sym (append-nil w.accepted))
accepted-step w work = ([], (work_at-kept w w.point).1 ∙ sym (append-nil w.accepted))

accepted-run :
    (w : Worker) (es : List Event) → (more : List Text) × ((run w es).accepted ≡ w.accepted ++ more)
unfolding run
accepted-run w [] = ([], sym (append-nil w.accepted))
accepted-run w (e ∷ es) =
    let (more, p) = accepted-step w e in
    let (rest, q) = accepted-run (step w e) es in
    (more ++ rest, q ∙ ap (λ l. l ++ rest) p ∙ append_assoc w.accepted more rest)

rank_lem : (p : Point) → rank p ≤ 3
rank_lem checking = omega arith
rank_lem waiting = omega arith
rank_lem draining = omega arith
rank_lem (executing payload) = omega arith
rank_lem ended = omega arith

-- Whatever has happened since the start, where the worker has not been stopped and is not stopped
-- from then on: once it has had two turns for each command that was accepted and has not run, and
-- three more, it has run all of them, in the order of their arrival, with more commands after them
-- where more arrived.
pub run-executes :
    (past es : List Event)
    → All (λ e. is_stop e ≡ false) es
    → (run started past).stop_requested ≡ false
    → 2 * (length (run started past).accepted - length (run started past).executed) + 3 ≤ turns es
    → (more : List Text) × ((run (run started past) es).executed
        ≡ (run started past).accepted ++ more)
run-executes past es h s k =
    let w = run started past in
    let i = run-started-Inv past in
    let (more, p) = accepted-run w es in
    let ran =
      reaches (length w.accepted) w es i h s (omega arith) (omega (arith, rank_lem w.point, k)) in
    starts (run w es).executed _ w.accepted more (sym (run-Inv w es i).fifo ∙ p) ran
