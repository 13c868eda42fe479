-- ===== src/Executor/Lifecycle.antt =====
-- The results of a command: acknowledged, executing, then one final result.
use orbis_agent_desktop.Base.{
  ℕ, ◌+◌, ◌≡◌, refl, ◌⊎◌, inl, inr, Bool, true, false, ◌||◌, not, List, [], ◌∷◌, ◌++◌, Text, text,
  text_eq, is_empty, if◌then◌else◌, Bool-cases, arith,
}
use orbis_agent_desktop.Base.Int.{ℤ, pos, negsuc}
use orbis_agent_desktop.Json.{JsonLib, Result, ok, err, AlwaysDumps}
use orbis_agent_desktop.Topics.{topic_for, topic_results_fmt}
use orbis_agent_desktop.Executor.Effects.{
  Action, publish, collect_now, scan_now, start_update, Outcome, Exec, lift, act, pure, ◌>>=◌, ◌>>◌,
  recover,
}
use orbis_agent_desktop.Executor.{
  Env, result_doc, publish_result, handle_shell, handle_restart, handle_collect_now,
  handle_scan_network, handle_get_info, handle_update, handle_unknown, dispatch, run_command,
  execute_command, statut_of, shell_command, truncated, run_shell, nothing,
}

module _ (json : JsonLib) (env : Env json) (dumps : AlwaysDumps json) where
  -- The publish of a result, with what it says.
  abbrev pub result_of : Text → Text → Text → Text → ℤ → Text → Action
  result_of id statut output error code timestamp =
      publish (topic_for topic_results_fmt env.device_id)
        (dumps.dumped (result_doc json env id statut output error code timestamp))

  abbrev pub acknowledged : Text → Text → Action
  acknowledged id = result_of id (text "acknowledged") [] [] (negsuc 0)

  abbrev pub executing : Text → Text → Action
  executing id = result_of id (text "executing") [] [] (negsuc 0)

  abbrev pub IsFinal : Text → Type 0
  IsFinal statut = (statut ≡ text "success") ⊎ (statut ≡ text "failed")

  -- What the execution may trigger: nothing, one collection, or one scan; no result.
  abbrev pub IsTriggered : List Action → Type 0
  IsTriggered [] = Unit {0}
  IsTriggered (collect_now ∷ []) = Unit {0}
  IsTriggered (scan_now ∷ []) = Unit {0}
  IsTriggered _ = ⊥

  -- What a handler does after the acknowledgement.
  data Handled (id : Text) : Result (Unit {0}) → List Action → Type 0 where
    threw : (what : Text) → Handled id (err what) []
    refused :
        (error timestamp : Text)
        → Handled id (ok tt) (result_of id (text "failed") [] error (negsuc 0) timestamp ∷ [])
    completed :
        (t₁ : Text) (triggered : List Action) (statut output error : Text) (code : ℤ) (t₂ : Text)
        → IsFinal statut
        → IsTriggered triggered
        → Handled id
            (ok tt)
            (executing id t₁ ∷ triggered ++ result_of id statut output error code t₂ ∷ [])
    updating :
        (url sha256 version : Text)
        → is_empty url ≡ false
        → is_empty sha256 ≡ false
        → Handled id (ok tt) (start_update id url sha256 version ∷ [])

  -- What is seen of a command: a failure before the acknowledgement; an acknowledgement and then a
  -- failure; an acknowledgement, the execution, with what it triggers, and a final result; or an
  -- acknowledgement and the start of an update.
  pub data Lifecycle (id : Text) : List Action → Type 0 where
    not_started :
        (error timestamp : Text)
        → Lifecycle id (result_of id (text "failed") [] error (negsuc 0) timestamp ∷ [])
    refused :
        (t₁ error t₂ : Text)
        → Lifecycle id
            (acknowledged id t₁ ∷ result_of id (text "failed") [] error (negsuc 0) t₂ ∷ [])
    completed :
        (t₁ t₂ : Text) (triggered : List Action) (statut output error : Text) (code : ℤ) (t₃ : Text)
        → IsFinal statut
        → IsTriggered triggered
        → Lifecycle id (
            acknowledged id t₁ ∷ executing id t₂ ∷ triggered
            ++ result_of id statut output error code t₃ ∷ [])
    updating :
        (t₁ url sha256 version : Text)
        → is_empty url ≡ false
        → is_empty sha256 ≡ false
        → Lifecycle id (acknowledged id t₁ ∷ start_update id url sha256 version ∷ [])

  publish_result_lem :
      (id statut output error : Text) (code : ℤ) (n : ℕ)
      → publish_result json env id statut output error code n ≡ record {
        result = ok tt;
        actions = result_of id statut output error code (env.now n) ∷ [];
        reads = n + 1;
      }
  unfolding publish_result
  publish_result_lem id statut output error code n = rw dumps.dump_ok

  abbrev Handles : Text → Exec (Unit {0}) → Type 0
  Handles id m = (n : ℕ) → Handled id (m n).result (m n).actions

  statut_of-IsFinal : (code : ℤ) → IsFinal (statut_of code)
  unfolding statut_of
  statut_of-IsFinal code = ground arith

  handle_shell-Handles :
      (id payload : Text) (timeout : ℤ) → Handles id (handle_shell json env id payload timeout)
  unfolding handle_shell
  handle_shell-Handles id payload timeout n =
      elim (Bool-cases (is_empty (shell_command json env payload))) [
        | inl e ↦ rw e (rw publish_result_lem (refused (text "Empty command") (env.now n)))
        | inr e ↦
            let r = (run_shell (env.process (shell_command json env payload)) timeout).0 in
            rw e (
              rw publish_result_lem (
                rw publish_result_lem (
                  completed (env.now n) [] (statut_of r.exit_code) (truncated r.output) r.error
                    r.exit_code (env.now (n + 1)) (statut_of-IsFinal r.exit_code) tt)))
      ]

  handle_restart-Handles : (id : Text) → Handles id (handle_restart json env id)
  unfolding handle_restart
  handle_restart-Handles id n =
      let r = (run_shell (env.process (text "systemctl restart orbis-agent")) (pos 30)).0 in
      rw publish_result_lem (
        rw publish_result_lem (
          completed (env.now n) [] (statut_of r.exit_code) r.output r.error r.exit_code
            (env.now (n + 1)) (statut_of-IsFinal r.exit_code) tt))

  trigger-Handles :
      (id message : Text) (present : Bool) (a : Action)
      → IsTriggered (a ∷ [])
      → Handles id (do
        publish_result json env id (text "executing") [] [] nothing
        if present then act a else pure tt
        publish_result json env id (text "success") message [] (pos 0))
  trigger-Handles id message true a h n = rw publish_result_lem (
      rw publish_result_lem (
        completed (env.now n) (a ∷ []) (text "success") message [] (pos 0) (env.now (n + 1))
          (inl refl) h))
  trigger-Handles id message false a h n = rw publish_result_lem (
      rw publish_result_lem (
        completed (env.now n) [] (text "success") message [] (pos 0) (env.now (n + 1)) (inl refl)
          tt))

  handle_collect_now-Handles : (id : Text) → Handles id (handle_collect_now json env id)
  unfolding handle_collect_now
  handle_collect_now-Handles id = trigger-Handles id _ env.log_collector collect_now tt

  handle_scan_network-Handles : (id : Text) → Handles id (handle_scan_network json env id)
  unfolding handle_scan_network
  handle_scan_network-Handles id = trigger-Handles id _ env.network_scanner scan_now tt

  handle_get_info-Handles : (id : Text) → Handles id (handle_get_info json env id)
  unfolding handle_get_info
  handle_get_info-Handles id n = rw publish_result_lem (
      rw dumps.dump_ok (
        rw publish_result_lem
          (completed (env.now n) [] (text "success") _ [] (pos 0) (env.now (n + 1)) (inl refl) tt)))

  handle_unknown-Handles : (id type : Text) → Handles id (handle_unknown json env id type)
  unfolding handle_unknown
  handle_unknown-Handles id type n =
      rw publish_result_lem (refused (text "Unknown command type: " ++ type) (env.now n))

  -- A call that may throw, and then the rest.
  lift-Handles {ℓ} :
      {A : Type ℓ} (id : Text) (r : Result A) (f : A → Exec (Unit {0}))
      → ((a : A) → Handles id (f a))
      → Handles id (lift r >>= f)
  lift-Handles id (ok a) f h n = h a n
  lift-Handles id (err what) f h n = threw what

  start-Handles :
      (id url sha256 version : Text) (b c : Bool)
      → is_empty url ≡ b
      → is_empty sha256 ≡ c
      → Handles id (
          if b || c
          then publish_result json env id
              (text "failed")
              []
              (text "Missing url or sha256 in payload")
              (negsuc 0)
          else act (start_update id url sha256 version))
  start-Handles id url sha256 version true c p q n = rw publish_result_lem (refused _ (env.now n))
  start-Handles id url sha256 version false true p q n =
      rw publish_result_lem (refused _ (env.now n))
  start-Handles id url sha256 version false false p q n = updating url sha256 version p q

  unless-Handles :
      (id error : Text) (present : Bool) (m : Exec (Unit {0}))
      → Handles id m
      → Handles id
          (if not present then publish_result json env id (text "failed") [] error nothing else m)
  unless-Handles id error true m h n = h n
  unless-Handles id error false m h n = rw publish_result_lem (refused error (env.now n))

  handle_update-Handles : (id : Text) (j : json.Value) → Handles id (handle_update json env id j)
  unfolding handle_update
  handle_update-Handles id j = unless-Handles id _ env.update_manager _ (
      lift-Handles id (json.value_json j (text "payload") json.null) _ (λ payload.
        lift-Handles id (json.value_text payload (text "url") []) _ (λ url.
          lift-Handles id (json.value_text payload (text "sha256") []) _ (λ sha256.
            lift-Handles id (json.value_text payload (text "version") []) _ (λ version.
              start-Handles id url sha256 version (is_empty url) (is_empty sha256) refl refl)))))

  if-Handles :
      (id : Text) (b : Bool) (m k : Exec (Unit {0}))
      → Handles id m
      → Handles id k
      → Handles id (if b then m else k)
  if-Handles id true m k p q = p
  if-Handles id false m k p q = q

  dispatch-Handles :
      (id type : Text) (timeout : ℤ) (j : json.Value)
      → Handles id (dispatch json env id type timeout j)
  unfolding dispatch
  dispatch-Handles id type timeout j =
      if-Handles id (text_eq type (text "shell")) _ _
        (lift-Handles id (json.value_json j (text "payload") json.null) _ (λ payload.
          lift-Handles id (json.dump payload) _
            (λ payload_str. handle_shell-Handles id payload_str timeout)))
        (if-Handles id (text_eq type (text "restart_service")) _ _ (handle_restart-Handles id) (
          if-Handles id (text_eq type (text "collect_now")) _ _ (handle_collect_now-Handles id) (
            if-Handles id (text_eq type (text "scan_network")) _ _ (handle_scan_network-Handles id)
              (if-Handles id (text_eq type (text "get_info")) _ _ (handle_get_info-Handles id) (
                if-Handles id (text_eq type (text "agent_update")) _ _ (handle_update-Handles id j)
                  (handle_unknown-Handles id type))))))

  -- The whole `try` block: an exception before the acknowledgement, or an acknowledgement and then
  -- what the handler does.
  data Ran (id : Text) : Result (Unit {0}) → List Action → Type 0 where
    early : (what : Text) → Ran id (err what) []
    late :
        {r : Result (Unit {0})} {acts : List Action} (t : Text)
        → Handled id r acts
        → Ran id r (acknowledged id t ∷ acts)

  abbrev Runs : Text → Exec (Unit {0}) → Type 0
  Runs id m = (n : ℕ) → Ran id (m n).result (m n).actions

  lift-Runs {ℓ} :
      {A : Type ℓ} (id : Text) (r : Result A) (f : A → Exec (Unit {0}))
      → ((a : A) → Runs id (f a))
      → Runs id (lift r >>= f)
  lift-Runs id (ok a) f h n = h a n
  lift-Runs id (err what) f h n = early what

  acknowledge-Runs :
      (id : Text) (m : Exec (Unit {0}))
      → Handles id m
      → Runs id (publish_result json env id (text "acknowledged") [] [] nothing >> m)
  acknowledge-Runs id m h n = rw publish_result_lem (late (env.now n) (h (n + 1)))

  run_command-Runs : (id : Text) (j : json.Value) → Runs id (run_command json env id j)
  unfolding run_command
  run_command-Runs id j = lift-Runs id (json.value_text j (text "type") []) _ (λ type.
      lift-Runs id (json.value_int j (text "timeout_sec") _) _
        (λ timeout. acknowledge-Runs id _ (dispatch-Handles id type timeout j)))

  abbrev Answered : Text → Outcome (Unit {0}) → Type 0
  Answered id o = (o.result ≡ ok tt) × Lifecycle id o.actions

  abbrev failed_with : Text → Text → Exec (Unit {0})
  failed_with id what = publish_result json env id (text "failed") [] what nothing

  recover-Answered :
      (id : Text) (r : Result (Unit {0})) (acts : List Action) (n : ℕ)
      → Ran id r acts
      → Answered id (recover r acts n (failed_with id))
  recover-Answered id r acts n (early what) =
      rw publish_result_lem (refl, not_started what (env.now n))
  recover-Answered id r acts n (late t (threw what)) =
      rw publish_result_lem (refl, refused t what (env.now n))
  recover-Answered id r acts n (late t (refused error t₂)) = (refl, refused t error t₂)
  recover-Answered id r acts n (late t (completed t₁ triggered statut output error code t₂ f g)) =
      (refl, completed t t₁ triggered statut output error code t₂ f g)
  recover-Answered id r acts n (late t (updating url sha256 version p q)) =
      (refl, updating t url sha256 version p q)

  -- Where every document can be written: a command that has an id is answered by one of the four
  -- life cycles, each with one final result or the start of an update and with nothing after it, whatever its type and its other fields are and whatever throws on the way, and no
  -- exception leaves the executor.
  pub execute_command-Lifecycle :
      (payload : Text) (j : json.Value) (id : Text)
      → json.parse payload ≡ ok j
      → json.value_text j (text "command_id") [] ≡ ok id
      → is_empty id ≡ false
      → (n : ℕ)
      → ((execute_command json env payload n).result ≡ ok tt)
        × Lifecycle id (execute_command json env payload n).actions
  unfolding execute_command
  execute_command-Lifecycle payload j id p q e n =
      let o = run_command json env id j n in
      rw (p, execute_command)
        (rw (q, execute_command)
          (rw e (recover-Answered id o.result o.actions o.reads (run_command-Runs id j n))))
