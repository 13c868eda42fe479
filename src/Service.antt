-- ===== src/Service.antt =====
-- The life of a service's thread: `start`, `stop` and `isRunning`, which HeartbeatService.cpp,
-- LogCollector.cpp and NetworkScanner.cpp of src/services write alike, and the watchdog of src/main.cpp.
-- `stop` runs until the thread has ended; the flag that starts a round at once is not in this state.
pub mod Watchdog
pub mod Loop
use orbis_agent_desktop.Base.{Bool, true, false, List, [], ◌∷◌, if◌then◌else◌}

-- `thread_`: without a thread, or joinable, while the thread runs or after it ended by itself.
pub data Thread : Type 0 where
  absent running_thread ended : Thread

pub record Service : Type 0 where
  pub running : Bool
  pub stop_requested : Bool
  pub thread : Thread
  -- `std::terminate` was called: a thread was assigned to a joinable one.
  pub terminated : Bool

unfoldable pub construct : Service
construct = record { running = false; stop_requested = false; thread = absent; terminated = false }

-- `thread_ = std::thread(...)`
assign_thread : Service → Service
assign_thread s = elim s.thread [
  | absent ↦ record s { thread = running_thread }
  | running_thread ↦ record s { terminated = true }
  | ended ↦ record s { terminated = true }
]

pub start : Service → Service
unfolding assign_thread
start s =
    if s.running then s else assign_thread (record s { stop_requested = false; running = true })

pub stop : Service → Service
stop s = record s { stop_requested = true; thread = absent; running = false }

-- The thread's function returns or the thread dies without a call of `stop`.
pub thread_ends : Service → Service
thread_ends s = elim s.thread [
  | absent ↦ s
  | running_thread ↦ record s { thread = ended }
  | ended ↦ s
]

-- A turn of the watchdog's loop, for one service.
pub watch : Service → Service
unfolding start
watch s = if s.running then s else start s
