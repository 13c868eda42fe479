-- ===== src/Service/Watchdog.antt =====
-- What the calls of the main program can do to a service.
use orbis_agent_desktop.Base.{◌≡◌, refl, false, List, [], ◌∷◌, arith}
use orbis_agent_desktop.Service.{
  Service, absent, construct, start, stop, thread_ends, watch, assign_thread,
}

pub data Call : Type 0 where
  starts stops ends watches : Call

pub apply : Service → Call → Service
apply s starts = start s
apply s stops = stop s
apply s ends = thread_ends s
apply s watches = watch s

pub run : Service → List Call → Service
unfolding apply
run s [] = s
run s (c ∷ cs) = run (apply s c) cs

-- A service that is not running has no thread to join.
pub record Joined (s : Service) : Type 0 where
  pub joined : s.running ≡ false → s.thread ≡ absent
  pub not_terminated : s.terminated ≡ false

apply-Joined : (s : Service) (c : Call) → Joined s → Joined (apply s c)
unfolding apply start stop thread_ends watch assign_thread
apply-Joined s starts j = record {
  joined = ground (arith, j.joined);
  not_terminated = ground (arith, j.joined, j.not_terminated);
}
apply-Joined s stops j = record { joined = λ h. refl; not_terminated = j.not_terminated }
apply-Joined s ends j = record {
  joined = ground (arith, j.joined);
  not_terminated = ground (arith, j.not_terminated);
}
apply-Joined s watches j = record {
  joined = ground (arith, j.joined);
  not_terminated = ground (arith, j.joined, j.not_terminated);
}

Joined-run : (cs : List Call) (s : Service) → Joined s → Joined (run s cs)
unfolding run
Joined-run [] s j = j
Joined-run (c ∷ cs) s j = Joined-run cs (apply s c) (apply-Joined s c j)

pub construct-Joined : Joined construct
unfolding construct
construct-Joined = record { joined = λ h. refl; not_terminated = refl }

-- Whatever order a new service is started, stopped and watched in, and whenever its thread ends, no
-- call assigns to a thread that can still be joined, which would end the process; and where the
-- service is not running, its thread was joined.
run-Joined : (cs : List Call) → Joined (run construct cs)
run-Joined cs = Joined-run cs construct construct-Joined

pub start-Joined : (s : Service) → Joined s → Joined (start s)
unfolding apply
start-Joined s = apply-Joined s starts

pub thread_ends-Joined : (s : Service) → Joined s → Joined (thread_ends s)
unfolding apply
thread_ends-Joined s = apply-Joined s ends

pub watch-Joined : (s : Service) → Joined s → Joined (watch s)
unfolding apply
watch-Joined s = apply-Joined s watches

-- A service that was stopped: its thread was joined, and the process goes on.
pub record Quiet (s : Service) : Type 0 where
  pub not_running : s.running ≡ false
  pub no_thread : s.thread ≡ absent
  pub not_terminated : s.terminated ≡ false

pub stop-Quiet : (s : Service) → Joined s → Quiet (stop s)
unfolding stop
stop-Quiet s j = record { not_running = refl; no_thread = refl; not_terminated = j.not_terminated }
