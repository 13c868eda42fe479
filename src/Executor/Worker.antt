-- ===== src/Executor/Worker.antt =====
-- `workerLoop`, `processCommand` and `stop` of src/services/CommandExecutor.cpp, as steps of one state.
-- A step of the worker is what it does between two points at which another thread may run.
pub mod Order
pub mod Liveness
pub mod Tests
use orbis_agent_desktop.Base.{ℕ, Bool, true, false, List, [], ◌∷◌, ◌++◌, Text, if◌then◌else◌}
use orbis_agent_desktop.Executor.Inbox.{process_command}

-- Where the worker is: at the condition of the outer loop, in the wait, at the condition of the inner
-- loop, in a command, or returned.
pub data Point : Type 0 where
  checking waiting draining : Point
  executing : Text → Point
  ended : Point

-- `accepted` and `executed` are the history: the commands that were queued, and those that ran.
pub record Worker : Type 0 where
  pub point : Point
  pub command_queue : List Text
  pub stop_requested : Bool
  pub accepted : List Text
  pub executed : List Text

-- What runs next: the callback of the client, `stop`, or the worker.
pub data Event : Type 0 where
  command : Text → Event
  stop : Event
  work : Event

-- The thread as `start` makes it.
pub started : Worker
started = record {
  point = checking;
  command_queue = [];
  stop_requested = false;
  accepted = [];
  executed = [];
}

-- The wait ends on a stop or on a command.
woken : Bool → List Text → Point
woken true queue = draining
woken false [] = waiting
woken false (payload ∷ queue) = draining

-- `front` and `pop`; an empty queue leaves the inner loop.
take_front : Worker → List Text → Worker
take_front w [] = record w { point = checking }
take_front w (payload ∷ queue) = record w { point = executing payload; command_queue = queue }

work_at : Worker → Point → Worker
unfolding woken take_front
work_at w checking = record w { point = if w.stop_requested then ended else waiting }
work_at w waiting = record w { point = woken w.stop_requested w.command_queue }
work_at w draining = take_front w w.command_queue
work_at w (executing payload) = record w { point = draining; executed = w.executed ++ payload ∷ [] }
work_at w ended = w

pub step : Worker → Event → Worker
unfolding process_command work_at
step w (command payload) = record w {
  command_queue = process_command w.command_queue payload;
  accepted = w.accepted ++ payload ∷ [];
}
step w stop = record w { stop_requested = true }
step w work = work_at w w.point

pub run : Worker → List Event → Worker
unfolding step
run w [] = w
run w (e ∷ es) = run (step w e) es
