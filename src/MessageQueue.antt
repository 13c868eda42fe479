-- ===== src/MessageQueue.antt =====
-- src/core/MessageQueue.hpp and MessageQueue.cpp: the bounded FIFO of inbound messages.
-- The mutex makes each operation one step. `received_at` is the clock's reading in the message.
pub mod Fifo
pub mod Tests
use orbis_agent_desktop.Base.{
  ℕ, Text, Bool, true, false, List, [], ◌∷◌, ◌++◌, Option, none, some, length, leb, if◌then◌else◌,
  ◌||◌, not,
}

pub record Message : Type 0 where
  pub topic : Text
  pub payload : Text
  pub received_at : ℕ

-- The front of the `std::queue` is the head of the list.
pub record MessageQueue : Type 0 where
  pub queue : List Message
  pub max_size : ℕ
  pub is_shutdown : Bool

pub init : ℕ → MessageQueue
init max_size = record { queue = []; max_size = max_size; is_shutdown = false }

-- A full queue drops the message.
pub push : MessageQueue → Message → MessageQueue
push q msg = if leb q.max_size (length q.queue) then q else record q { queue = q.queue ++ msg ∷ [] }

empty : List Message → Bool
empty [] = true
empty (m ∷ ms) = false

-- The predicate of `wait_for`.
pub wakes : MessageQueue → Bool
unfolding empty
wakes q = not (empty q.queue) || q.is_shutdown

-- `msg = queue_.front(); queue_.pop()`
take_front : MessageQueue → List Message → MessageQueue × Option Message
take_front q [] = (q, none)
take_front q (m ∷ ms) = (record q { queue = ms }, some m)

-- The state is the one in which `wait_for` returns: its result is the predicate there, whether
-- the thread was woken or the timeout passed.
pub pop : MessageQueue → MessageQueue × Option Message
unfolding wakes take_front
pop q = let ok = wakes q in if not ok || empty q.queue then (q, none) else take_front q q.queue

pub size : MessageQueue → ℕ
size q = length q.queue

pub shutdown : MessageQueue → MessageQueue
shutdown q = record q { is_shutdown = true }
