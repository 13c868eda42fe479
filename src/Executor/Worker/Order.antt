-- ===== src/Executor/Worker/Order.antt =====
-- The order in which the worker runs the commands.
use orbis_agent_desktop.Base.{
  ◌≡◌, refl, sym, ap, ◌∙◌, Bool, true, false, List, [], ◌∷◌, ◌++◌, Text, append_assoc, inl, inr,
  Bool-cases,
}
use orbis_agent_desktop.Executor.Inbox.{process_command}
use orbis_agent_desktop.Executor.Worker.{
  Point, checking, waiting, draining, executing, ended, Worker, Event, command, stop, work, started,
  woken, take_front, work_at, step, run,
}

abbrev pub in_hand : Point → List Text
in_hand checking = []
in_hand waiting = []
in_hand draining = []
in_hand (executing payload) = payload ∷ []
in_hand ended = []

abbrev pub is_ended : Point → Bool
is_ended checking = false
is_ended waiting = false
is_ended draining = false
is_ended (executing payload) = false
is_ended ended = true

-- Every command that was accepted has run, is running, or is in the queue, in the order of arrival;
-- the worker has returned only after a stop.
pub record Inv (w : Worker) : Type 0 where
  pub fifo : w.accepted ≡ w.executed ++ (in_hand w.point ++ w.command_queue)
  pub returned : is_ended w.point ≡ true → w.stop_requested ≡ true

in_hand-woken : (b : Bool) (queue : List Text) → in_hand (woken b queue) ≡ []
unfolding woken
in_hand-woken true queue = refl
in_hand-woken false [] = refl
in_hand-woken false (payload ∷ queue) = refl

is_ended-woken : (b : Bool) (queue : List Text) → is_ended (woken b queue) ≡ false
unfolding woken
is_ended-woken true queue = refl
is_ended-woken false [] = refl
is_ended-woken false (payload ∷ queue) = refl

take_front-Inv :
    (w : Worker) (queue : List Text)
    → w.command_queue ≡ queue
    → w.accepted ≡ w.executed ++ w.command_queue
    → Inv (take_front w queue)
unfolding take_front
take_front-Inv w [] e i = record { fifo = i; returned = λ h. cc }
take_front-Inv w (payload ∷ queue) e i = record { fifo = rw (sym e) i; returned = λ h. cc }

work_at-Inv : (w : Worker) (p : Point) → w.point ≡ p → Inv w → Inv (work_at w p)
unfolding work_at
work_at-Inv w checking e i = elim (Bool-cases w.stop_requested) [
  | inl s ↦ record { fifo = rw s (rw e at i.fifo); returned = λ h. s }
  | inr s ↦ record {
    fifo = rw s (rw e at i.fifo);
    returned = λ h. let q : false ≡ true = (rw s at h) in cc;
  }
]
work_at-Inv w waiting e i = record {
  fifo = rw (in_hand-woken w.stop_requested w.command_queue) (rw e at i.fifo);
  returned =
      λ h. let q : false ≡ true = (rw (is_ended-woken w.stop_requested w.command_queue) at h) in cc;
}
work_at-Inv w draining e i = take_front-Inv w w.command_queue refl (rw e at i.fifo)
work_at-Inv w (executing payload) e i = record {
  fifo = (rw e at i.fifo) ∙ sym (append_assoc w.executed (payload ∷ []) w.command_queue);
  returned = λ h. cc;
}
work_at-Inv w ended e i = i

pub step-Inv : (w : Worker) (e : Event) → Inv w → Inv (step w e)
unfolding step process_command
step-Inv w (command payload) i = record {
  fifo =
      ap (λ l. l ++ payload ∷ []) i.fifo
      ∙ append_assoc w.executed (in_hand w.point ++ w.command_queue) (payload ∷ [])
      ∙ ap (λ l. w.executed ++ l) (append_assoc (in_hand w.point) w.command_queue (payload ∷ []));
  returned = i.returned;
}
step-Inv w stop i = record { fifo = i.fifo; returned = λ h. refl }
step-Inv w work i = work_at-Inv w w.point refl i

pub run-Inv : (w : Worker) (es : List Event) → Inv w → Inv (run w es)
unfolding run
run-Inv w [] i = i
run-Inv w (e ∷ es) i = run-Inv (step w e) es (step-Inv w e i)

-- However the callback, `stop` and the worker interleave, from the start on: the commands that have
-- run, the one that is running and those in the queue are, in this order, the commands that were
-- accepted, in the order of their arrival; and the worker has returned only where it was stopped.
pub run-started-Inv : (es : List Event) → Inv (run started es)
unfolding started
run-started-Inv es = run-Inv started es (record { fifo = refl; returned = λ h. cc })
