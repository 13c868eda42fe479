-- ===== src/Installer/Windows/Status.antt =====
-- src/platform/WindowsService.cpp: what the running service reports to the service control manager.
-- The calls of `SetServiceStatus` are the list `reported`; the manager's controls are given in the
-- order in which they arrive.
use orbis_agent_desktop.Base.{
  append-nil, ℕ, suc, zero, ◌+◌, ◌%◌, ◌^◌, ◌<◌, ◌≡◌, refl, sym, ap, ◌∙◌, Bool, true, false, ◌||◌,
  List, [], ◌∷◌, ◌++◌, map, Option, none, some, if◌then◌else◌, ◌==◌, arith, append_assoc,
  Bool-cases, inl, inr,
}

pub data SvcState : Type 0 where
  start_pending running stop_pending stopped : SvcState

-- `SERVICE_STATUS`; the type of the service is always the same, and the controls accepted are none, or
-- stop and shutdown.
pub record Status : Type 0 where
  pub current_state : SvcState
  pub exit_code : ℕ
  pub wait_hint : ℕ
  pub check_point : ℕ
  pub accepts_stop : Bool

pub record Process : Type 0 where
  pub checkpoint : ℕ
  pub reported : List Status
  pub stop_event : Bool

-- `SERVICE_RUNNING` or `SERVICE_STOPPED`
abbrev settled : SvcState → Bool
settled start_pending = false
settled running = true
settled stop_pending = false
settled stopped = true

abbrev starting : SvcState → Bool
starting start_pending = true
starting running = false
starting stop_pending = false
starting stopped = false

pub report_status : Process → SvcState → ℕ → ℕ → Process
report_status p current_state exit_code wait_hint = record p {
  reported =
      p.reported
      ++ record {
        current_state = current_state;
        exit_code = exit_code;
        wait_hint = wait_hint;
        check_point = if settled current_state then 0 else p.checkpoint;
        accepts_stop = if starting current_state then false else true;
      }
        ∷ [];
  checkpoint = if settled current_state then p.checkpoint else (p.checkpoint + 1) % 2 ^ 32;
}

-- `SERVICE_CONTROL_STOP` or `SERVICE_CONTROL_SHUTDOWN`
unfoldable pub stops : ℕ → Bool
stops ctrl = ctrl == 1 || ctrl == 5

pub svc_ctrl_handler : Process → ℕ → Process
unfolding report_status
svc_ctrl_handler p ctrl =
    if stops ctrl then record (report_status p stop_pending 0 5000) { stop_event = true } else p

pub handle_all : Process → List ℕ → Process
handle_all p [] = p
handle_all p (ctrl ∷ ctrls) = handle_all (svc_ctrl_handler p ctrl) ctrls

-- The static variables when the program starts.
pub initial : Process
initial = record { checkpoint = 1; reported = []; stop_event = false }

-- The two reports before the wait.
begun : Process → Process
unfolding report_status
begun p =
    report_status (report_status (record p { stop_event = false }) start_pending 0 3000) running 0 0

-- Whether the handler is registered and the event is made are the system's answers; without the event
-- the wait fails at once. `ctrls` are the controls until the thread goes on; `none` is a thread that
-- still waits.
pub svc_main : Bool → Bool → Process → List ℕ → Option Process
unfolding begun report_status
svc_main registered event_made p ctrls =
    let handled = handle_all (begun p) ctrls in
    if registered
    then if event_made
      then if handled.stop_event then some (report_status handled stopped 0 0) else none
      else some (report_status (begun p) stopped 0 0)
    else some p

abbrev pub summary : Status → SvcState × ℕ
summary s = (s.current_state, s.check_point)

unfoldable pub count_stops : List ℕ → ℕ
count_stops [] = 0
count_stops (ctrl ∷ ctrls) = let rest = count_stops ctrls in if stops ctrl then suc rest else rest

-- `n` reports of a pending stop, their check points counted up from `from`.
pub stop_pendings : ℕ → ℕ → List (SvcState × ℕ)
stop_pendings zero from = []
stop_pendings (suc n) from = (stop_pending, from) ∷ stop_pendings n (from + 1)

map_snoc :
    (ss : List Status) (s : Status) → map summary (ss ++ s ∷ []) ≡ map summary ss ++ summary s ∷ []
map_snoc [] s = refl
map_snoc (x ∷ ss) s = rw (map_snoc ss s) refl

-- What the controls add to the reports.
record Handled (p q : Process) (n : ℕ) : Type 0 where
  reports : map summary q.reported ≡ map summary p.reported ++ stop_pendings n p.checkpoint
  signalled : 0 < n → q.stop_event ≡ true
  unsignalled : n ≡ 0 → q.stop_event ≡ p.stop_event

-- One control that stops the service.
record Stopped (p q : Process) : Type 0 where
  reports : map summary q.reported ≡ map summary p.reported ++ (stop_pending, p.checkpoint) ∷ []
  counted : q.checkpoint ≡ p.checkpoint + 1
  signalled : q.stop_event ≡ true

svc_ctrl_handler-Stopped :
    (p : Process) (ctrl : ℕ)
    → stops ctrl ≡ true
    → p.checkpoint + 1 < 2 ^ 32
    → Stopped p (svc_ctrl_handler p ctrl)
unfolding svc_ctrl_handler report_status
svc_ctrl_handler-Stopped p ctrl s h =
    rw s (record { reports = map_snoc p.reported _; counted = omega (arith, h); signalled = refl })

Stopped-then : (p p' q : Process) (n : ℕ) → Stopped p p' → Handled p' q n → Handled p q (suc n)
unfolding stop_pendings
Stopped-then p p' q n s h = record {
  reports =
      h.reports
      ∙ ap (λ xs. xs ++ stop_pendings n p'.checkpoint) s.reports
      ∙ append_assoc (map summary p.reported) ((stop_pending, p.checkpoint) ∷ [])
          (stop_pendings n p'.checkpoint)
      ∙ ap (λ c. map summary p.reported ++ (stop_pending, p.checkpoint) ∷ stop_pendings n c)
          s.counted;
  signalled = λ k. ground (arith, h.signalled, h.unsignalled, s.signalled);
  unsignalled = λ k. absurd (omega (arith, k));
}

handle_all-Handled :
    (ctrls : List ℕ) (p : Process)
    → p.checkpoint + count_stops ctrls < 2 ^ 32
    → Handled p (handle_all p ctrls) (count_stops ctrls)
unfolding handle_all count_stops
handle_all-Handled [] p h = record {
  reports = unfold stop_pendings in sym (append-nil (map summary p.reported));
  signalled = λ k. absurd (omega (arith, k));
  unsignalled = λ k. refl;
}
handle_all-Handled (ctrl ∷ ctrls) p h = elim (Bool-cases (stops ctrl)) [
  | inl s ↦
      let room : p.checkpoint + suc (count_stops ctrls) < 2 ^ 32 = (rw s at h) in
      let one = svc_ctrl_handler-Stopped p ctrl s (omega (arith, room)) in
      let rest =
        handle_all-Handled ctrls (svc_ctrl_handler p ctrl) (omega (arith, room, one.counted)) in
      rw s (Stopped-then p (svc_ctrl_handler p ctrl) _ (count_stops ctrls) one rest)
  | inr s ↦
      let same : svc_ctrl_handler p ctrl ≡ p = unfold svc_ctrl_handler in rw s refl in
      rw (s, same) (handle_all-Handled ctrls p (rw s at h))
]

-- From its start, with its handler registered and its event made, the service reports a pending start,
-- that it runs, a pending stop for each control that stops it, and that it has stopped, and counts the
-- check points of the pending reports up from 1; without such a control the thread still waits. This
-- needs fewer controls than check points.
pub svc_main_lem :
    (ctrls : List ℕ)
    → count_stops ctrls + 2 < 2 ^ 32
    → (count_stops ctrls ≡ 0 → svc_main true true initial ctrls ≡ none)
      × (0 < count_stops ctrls
          → (p : Process) × (svc_main true true initial ctrls ≡ some p)
            × (map summary p.reported
                ≡ (start_pending, 1)
                  ∷ (running, 0)
                  ∷ (stop_pendings (count_stops ctrls) 2 ++ (stopped, 0) ∷ [])))
unfolding svc_main begun initial report_status
svc_main_lem ctrls room =
    let p = begun initial in
    let handled = handle_all-Handled ctrls p (omega (arith, room)) in
    (
      (λ none_stops. rw (handled.unsignalled none_stops) refl),
      λ some_stop. (
        report_status (handle_all p ctrls) stopped 0 0,
        simp (handled.signalled some_stop),
        map_snoc _ _ ∙ ap (λ xs. xs ++ (stopped, 0) ∷ []) handled.reports,
      ),
    )
