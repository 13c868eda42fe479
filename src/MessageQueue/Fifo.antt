-- ===== src/MessageQueue/Fifo.antt =====
-- Histories of the message queue: what goes in comes out in order, within the bound.
use orbis_agent_desktop.Base.{
  ℕ, ◌≤◌, ◌≡◌, refl, List, [], ◌∷◌, ◌++◌, Option, none, some, length, if◌then◌else◌, arith,
  length-append, append_assoc, append-nil, ◌∙◌, ◌⊎◌, ltb, inl, inr,
}
use orbis_agent_desktop.MessageQueue.{Message, MessageQueue, push, pop, shutdown, init, take_front}

-- The calls that change the queue, in the order in which they take the lock.
pub data Call : Type 0 where
  pushes : Message → Call
  pops : Call
  shuts_down : Call

abbrev to_list : Option Message → List Message
to_list none = []
to_list (some m) = m ∷ []

-- What the calls took in and handed out.
pub record History : Type 0 where
  pub queue : MessageQueue
  pub accepted : List Message
  pub delivered : List Message

-- The queue after a call, with the message that a push added and the one that a pop returned.
pub step : History → Call → History
step h (pushes m) = record {
  queue = push h.queue m;
  accepted =
      if ltb (length h.queue.queue) h.queue.max_size then h.accepted ++ m ∷ [] else h.accepted;
  delivered = h.delivered;
}
step h pops =
    let (q, r) = pop h.queue in
    record { queue = q; accepted = h.accepted; delivered = h.delivered ++ to_list r }
step h shuts_down = record h { queue = shutdown h.queue }

pub run : History → List Call → History
unfolding step
run h [] = h
run h (c ∷ cs) = run (step h c) cs

pub start : ℕ → History
start n = record { queue = init n; accepted = []; delivered = [] }

pub record Inv (n : ℕ) (h : History) : Type 0 where
  pub fifo : h.accepted ≡ h.delivered ++ h.queue.queue
  pub bounded : length h.queue.queue ≤ n
  pub size_kept : h.queue.max_size ≡ n

pop-eq_take_front : (q : MessageQueue) (l : List Message) → q.queue ≡ l → pop q ≡ take_front q l
unfolding pop
pop-eq_take_front q [] e = ground arith
pop-eq_take_front q (m ∷ ms) e = ground arith

take_front-nil : (q : MessageQueue) → take_front q [] ≡ (q, none)
unfolding take_front
take_front-nil q = refl

take_front-cons :
    (q : MessageQueue) (m : Message) (ms : List Message)
    → take_front q (m ∷ ms) ≡ (record q { queue = ms }, some m)
unfolding take_front
take_front-cons q m ms = refl

pop-size : (q : MessageQueue) (l : List Message) → q.queue ≡ l → (pop q).0.max_size ≡ q.max_size
unfolding take_front
pop-size q [] e = rw (pop-eq_take_front q [] e)
pop-size q (m ∷ ms) e = rw (pop-eq_take_front q (m ∷ ms) e)

pop-bounded :
    (q : MessageQueue) (l : List Message) → q.queue ≡ l → length (pop q).0.queue ≤ length l
unfolding take_front
pop-bounded q [] e = rw (pop-eq_take_front q [] e) (rw e (omega arith))
pop-bounded q (m ∷ ms) e = rw (pop-eq_take_front q (m ∷ ms) e) (omega arith)

pop-fifo :
    (d : List Message) (q : MessageQueue) (l : List Message)
    → q.queue ≡ l
    → d ++ l ≡ (d ++ to_list (pop q).1) ++ (pop q).0.queue
unfolding take_front
pop-fifo d q [] e = rw (pop-eq_take_front q [] e) (rw e (simp append-nil))
pop-fifo d q (m ∷ ms) e = rw (pop-eq_take_front q (m ∷ ms) e) (simp append_assoc)

step-Inv : (n : ℕ) (h : History) (c : Call) → Inv n h → Inv n (step h c)
unfolding step push shutdown
step-Inv n h (pushes m) v =
    ground
      (arith, length-append h.queue.queue (m ∷ []), append_assoc h.delivered h.queue.queue (m ∷ []))
step-Inv n h pops v = record {
  fifo = v.fifo ∙ pop-fifo h.delivered h.queue h.queue.queue refl;
  bounded = omega (arith, pop-bounded h.queue h.queue.queue refl, v.bounded);
  size_kept = pop-size h.queue h.queue.queue refl ∙ v.size_kept;
}
step-Inv n h shuts_down v = record { fifo = v.fifo; bounded = v.bounded; size_kept = v.size_kept }

run-Inv : (n : ℕ) (h : History) (cs : List Call) → Inv n h → Inv n (run h cs)
unfolding run
run-Inv n h [] v = v
run-Inv n h (c ∷ cs) v = run-Inv n (step h c) cs (step-Inv n h c v)

start-Inv : (n : ℕ) → Inv n (start n)
unfolding start init
start-Inv n = record { fifo = refl; bounded = omega arith; size_kept = refl }

-- After any calls on a new queue: the messages that found room, in the order of their pushes, are
-- those that pops have returned followed by those still queued; and at most `max_size` are queued.
pub run-start-Inv : (n : ℕ) (cs : List Call) → Inv n (run (start n) cs)
run-start-Inv n cs = run-Inv n (start n) cs (start-Inv n)

-- A pop returns the oldest message if there is one, also after a shutdown; otherwise it returns
-- nothing and leaves the queue as it was.
pub pop_serves_oldest :
    (q : MessageQueue)
    → ((q.queue ≡ []) × (pop q ≡ (q, none)))
      ⊎ ((m : Message) × (ms : List Message) × (q.queue ≡ m ∷ ms)
          × (pop q ≡ (record q { queue = ms }, some m)))
pop_serves_oldest q = go q.queue refl
  where
    go :
        (l : List Message)
        → q.queue ≡ l
        → ((q.queue ≡ []) × (pop q ≡ (q, none)))
          ⊎ ((m : Message) × (ms : List Message) × (q.queue ≡ m ∷ ms)
              × (pop q ≡ (record q { queue = ms }, some m)))
    go [] e = inl (e, pop-eq_take_front q [] e ∙ take_front-nil q)
    go (m ∷ ms) e = inr (m, ms, e, pop-eq_take_front q (m ∷ ms) e ∙ take_front-cons q m ms)
