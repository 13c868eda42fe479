-- ===== src/Executor.antt =====
-- src/services/CommandExecutor.cpp: remote commands, from the callback of the MQTT client to the
-- results that are published. What the platform's shell does is a parameter; `runShell` is the POSIX
-- one, and `handleRestart` the one for Linux.
pub mod Effects
pub mod Lifecycle
pub mod Shell
pub mod Windows
pub mod Inbox
pub mod Worker
pub mod Tests
use orbis_agent_desktop.Base.{
  ℕ, ◌+◌, ◌-◌, Bool, true, false, ◌||◌, not, List, [], ◌∷◌, ◌++◌, Option, none, some, Text, text,
  text_eq, is_empty, ltb, if◌then◌else◌, length, take,
}
use orbis_agent_desktop.Base.Int.{ℤ, pos, negsuc, is_negative, is_zero}
use orbis_agent_desktop.Base.Decimal.{to_text}
use orbis_agent_desktop.Json.{JsonLib, Result, ok, err}
use orbis_agent_desktop.Topics.{topic_for, topic_results_fmt, topic_commands_fmt, topic_update_fmt}
use Effects.{
  Action, publish, collect_now, scan_now, start_update, Exec, pure, lift, act, read, ◌>>=◌, ◌>>◌,
  catch,
}

abbrev pub timeout_command_default_sec : ℤ
timeout_command_default_sec = pos 30

abbrev pub command_output_max_bytes : ℕ
command_output_max_bytes = 65536

abbrev pub agent_version : Text
agent_version = text "1.0.0"

-- How a process ends: by an exit with a status, or by a signal.
pub data WaitStatus : Type 0 where
  exited : ℕ → WaitStatus
  signalled : WaitStatus

-- A shell command as the system runs it.
pub data Process : Type 0 where
  popen_failed : Process
  runs : (seconds : ℕ) → (output : Text) → WaitStatus → Process

pub record ShellResult : Type 0 where
  pub exit_code : ℤ
  pub output : Text
  pub error : Text

exit_code_of : WaitStatus → ℤ
exit_code_of (exited n) = pos n
exit_code_of signalled = negsuc 0

-- `wait_for` on the future of a task that takes these seconds: whether it is a timeout, and the seconds
-- that it waited.
wait_for : ℕ → ℤ → Bool × ℕ
wait_for seconds (pos timeout) = if ltb timeout seconds then (true, timeout) else (false, seconds)
wait_for seconds (negsuc n) = (true, 0)

-- The second at which a call that waits for the task from a second on goes on: `get`, and the destructor
-- of a future of `std::async`.
joined : ℕ → ℕ → ℕ
joined seconds from = from + (seconds - from)

-- What follows the wait: the result, and the second at which the call returns.
returned : ShellResult → ℕ → ℤ → Bool × ℕ → ShellResult × ℕ
unfolding joined
returned finished seconds timeout_sec (true, waited) = (
  record {
    exit_code = negsuc 0;
    output = [];
    error = text "Command timed out after " ++ (to_text timeout_sec ++ text "s");
  },
  joined seconds waited,
)
returned finished seconds timeout_sec (false, waited) = (finished, joined seconds waited)

pub run_shell : Process → ℤ → ShellResult × ℕ
unfolding exit_code_of wait_for returned
run_shell popen_failed timeout_sec =
    (record { exit_code = negsuc 0; output = []; error = text "popen failed" }, 0)
run_shell (runs seconds output status) timeout_sec =
    returned (record { exit_code = exit_code_of status; output = output; error = [] }) seconds
      timeout_sec (wait_for seconds timeout_sec)

pub record Env (json : JsonLib) : Type 0 where
  pub device_id : Text
  pub now : ℕ → Text
  pub process : Text → Process
  -- The pointers that may be null.
  pub log_collector : Bool
  pub network_scanner : Bool
  pub update_manager : Bool

-- The exit code of what has none, -1.
abbrev pub nothing : ℤ
nothing = negsuc 0

pub truncated : Text → Text
truncated output =
    if ltb command_output_max_bytes (length output)
    then take command_output_max_bytes output ++ (b'\n' ∷ text "[TRUNCATED]")
    else output

pub statut_of : ℤ → Text
statut_of exit_code = if is_zero exit_code then text "success" else text "failed"

module _ (json : JsonLib) (env : Env json) where
  open env use {device_id, now, process, log_collector, network_scanner, update_manager}

  pub text_or_null : Text → json.Value
  text_or_null s = if is_empty s then json.null else json.of_text s

  pub code_or_null : ℤ → json.Value
  code_or_null code = if is_negative code then json.null else json.of_int code

  pub result_doc : Text → Text → Text → Text → ℤ → Text → json.Value
  unfolding text_or_null code_or_null
  result_doc command_id statut output error exit_code timestamp =
      let final = text_eq statut (text "success") || text_eq statut (text "failed") in
      json.object (
        (text "command_id", json.of_text command_id)
        ∷ (text "device_id", json.of_text device_id)
        ∷ (text "statut", json.of_text statut)
        ∷ (text "timestamp", json.of_text timestamp)
        ∷ (text "output", if final then text_or_null output else json.null)
        ∷ (text "error", if final then text_or_null error else json.null)
        ∷ (text "exit_code", if final then code_or_null exit_code else json.null)
        ∷ [])

  -- The result of the publish is only logged.
  pub publish_result : Text → Text → Text → Text → ℤ → Exec (Unit {0})
  publish_result command_id statut output error exit_code = do
    timestamp ← read now
    payload ← lift (json.dump (result_doc command_id statut output error exit_code timestamp))
    act (publish (topic_for topic_results_fmt device_id) payload)

  -- `catch (...) { command = payload_str; }`
  pub shell_command : Text → Text
  shell_command payload_str = elim (json.parse payload_str) [
    | err what ↦ payload_str
    | ok payload ↦ elim (json.value_text payload (text "command") []) [
      | err what ↦ payload_str
      | ok command ↦ command
    ]
  ]

  pub handle_shell : Text → Text → ℤ → Exec (Unit {0})
  unfolding shell_command truncated statut_of
  handle_shell cmd_id payload_str timeout_sec =
      let command = shell_command payload_str in
      let r = (run_shell (process command) timeout_sec).0 in
      let run : Exec (Unit {0}) = (do
        publish_result cmd_id (text "executing") [] [] nothing
        publish_result cmd_id (statut_of r.exit_code) (truncated r.output) r.error r.exit_code) in
      if is_empty command
      then publish_result cmd_id (text "failed") [] (text "Empty command") nothing
      else run

  pub handle_restart : Text → Exec (Unit {0})
  unfolding statut_of
  handle_restart cmd_id = do
    publish_result cmd_id (text "executing") [] [] nothing
    let r = (run_shell (process (text "systemctl restart orbis-agent")) (pos 30)).0
    publish_result cmd_id (statut_of r.exit_code) r.output r.error r.exit_code

  pub handle_collect_now : Text → Exec (Unit {0})
  handle_collect_now cmd_id = do
    publish_result cmd_id (text "executing") [] [] nothing
    if log_collector then act collect_now else pure tt
    publish_result cmd_id (text "success") (text "Collection triggered") [] (pos 0)

  pub handle_scan_network : Text → Exec (Unit {0})
  handle_scan_network cmd_id = do
    publish_result cmd_id (text "executing") [] [] nothing
    if network_scanner then act scan_now else pure tt
    publish_result cmd_id (text "success") (text "Network scan triggered") [] (pos 0)

  pub handle_get_info : Text → Exec (Unit {0})
  handle_get_info cmd_id = do
    publish_result cmd_id (text "executing") [] [] nothing
    info ← lift (
        json.dump (
          json.object (
            (text "device_id", json.of_text device_id)
            ∷ (text "version", json.of_text agent_version)
            ∷ [])))
    publish_result cmd_id (text "success") info [] (pos 0)

  -- The branch for "agent_update".
  pub handle_update : Text → json.Value → Exec (Unit {0})
  handle_update cmd_id j =
      let missing =
        publish_result cmd_id (text "failed") [] (text "UpdateManager not configured") nothing in
      let start : Exec (Unit {0}) = (do
        payload ← lift (json.value_json j (text "payload") json.null)
        url ← lift (json.value_text payload (text "url") [])
        sha256 ← lift (json.value_text payload (text "sha256") [])
        version ← lift (json.value_text payload (text "version") [])
        if is_empty url || is_empty sha256
            then publish_result cmd_id (text "failed") [] (text "Missing url or sha256 in payload")
                nothing
            else act (start_update cmd_id url sha256 version)) in
      if not update_manager then missing else start

  pub handle_unknown : Text → Text → Exec (Unit {0})
  handle_unknown cmd_id type =
      publish_result cmd_id (text "failed") [] (text "Unknown command type: " ++ type) nothing

  pub dispatch : Text → Text → ℤ → json.Value → Exec (Unit {0})
  dispatch cmd_id type timeout_sec j =
      let shell : Exec (Unit {0}) = (do
        payload ← lift (json.value_json j (text "payload") json.null)
        payload_str ← lift (json.dump payload)
        handle_shell cmd_id payload_str timeout_sec) in
      if text_eq type (text "shell")
      then shell
      else if text_eq type (text "restart_service")
      then handle_restart cmd_id
      else if text_eq type (text "collect_now")
      then handle_collect_now cmd_id
      else if text_eq type (text "scan_network")
      then handle_scan_network cmd_id
      else if text_eq type (text "get_info")
      then handle_get_info cmd_id
      else if text_eq type (text "agent_update")
      then handle_update cmd_id j
      else handle_unknown cmd_id type

  -- The `try` block once `command_id` is set.
  pub run_command : Text → json.Value → Exec (Unit {0})
  run_command command_id j = do
    type ← lift (json.value_text j (text "type") [])
    timeout_sec ← lift (json.value_int j (text "timeout_sec") timeout_command_default_sec)
    publish_result command_id (text "acknowledged") [] [] nothing
    dispatch command_id type timeout_sec j

  -- An exception before `command_id` is set leaves it empty, and is only logged.
  pub execute_command : Text → Exec (Unit {0})
  execute_command payload = elim (json.parse payload) [
    | err what ↦ pure tt
    | ok j ↦ elim (json.value_text j (text "command_id") []) [
      | err what ↦ pure tt
      | ok command_id ↦ catch (run_command command_id j) (λ what.
          if is_empty command_id
          then pure tt
          else publish_result command_id (text "failed") [] what nothing)
    ]
  ]
