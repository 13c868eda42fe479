-- ===== src/Installer/Windows.antt =====
-- src/platform/WindowsService.cpp: the installer of the Windows service, over the files of the machine
-- and the calls of the service control manager. What the manager answers is a parameter.
pub mod Status
pub mod Handles
pub mod Kept
pub mod Tests
use orbis_agent_desktop.Base.{
  ℕ, Bool, true, false, List, [], ◌∷◌, ◌++◌, Option, none, some, Text, text, if◌then◌else◌, ◌==◌,
}
use orbis_agent_desktop.Base.Files.{Files, Fault, Copied, copied, refused, copy_file}
use orbis_agent_desktop.Installer.Copies.{place_config}

abbrev pub dest_bin : Text
dest_bin = text "C:\\Program Files\\Orbis\\orbis-agent.exe"

abbrev pub dest_cfg : Text
dest_cfg = text "C:\\ProgramData\\Orbis\\config.toml"

abbrev pub image_path : Text
image_path = text "\"" ++ (dest_bin ++ (text "\" --config \"" ++ (dest_cfg ++ text "\"")))

-- `SC_HANDLE`; `null` is what a call that fails returns.
pub data Handle : Type 0 where
  manager service null : Handle

-- The calls of the manager that open, use and close handles, those that open one with their result.
pub data Call : Type 0 where
  opens : Handle → Bool → Call
  creates : Text → Option ℕ → Call
  changes_config : Handle → Text → Call
  sets_description : Handle → Call
  sets_recovery : Handle → Call
  starts : Handle → Call
  stops : Handle → Call
  deletes : Handle → Call
  queries : Handle → Call
  closes : Handle → Call

-- What the manager answers to one run; an error is a code of `GetLastError`.
pub record Scm : Type 0 where
  pub manager_opens : Bool
  pub create_error : Option ℕ
  pub service_opens : Bool
  pub start_error : Handle → Option ℕ
  pub delete_works : Bool
  -- `uninstall` opens the manager and the service a second time, after `stop` has closed them.
  pub manager_reopens : Bool
  pub service_reopens : Bool
  pub stop_works : Bool
  pub running : Bool

abbrev pub error_service_exists : ℕ
error_service_exists = 1073

abbrev pub error_service_already_running : ℕ
error_service_already_running = 1056

started : Option ℕ → Bool
started none = true
started (some e) = e == error_service_already_running

-- Steps 6 to 8, and the two guards.
unfoldable pub configure : Scm → Handle → Bool × List Call
unfolding started
configure scm svc = (
  started (scm.start_error svc),
  sets_description svc ∷ sets_recovery svc ∷ starts svc ∷ closes svc ∷ closes manager ∷ [],
)

after_calls : List Call → Bool × List Call → Bool × List Call
after_calls calls (ok, more) = (ok, calls ++ more)

-- Step 5: the service is made, or the one that exists is given the image path. A service that exists and
-- cannot be opened leaves a null handle, with which the code goes on.
unfoldable pub create_service : Scm → Option ℕ → Bool × List Call
unfolding configure after_calls
create_service scm none = after_calls (creates image_path none ∷ []) (configure scm service)
create_service scm (some e) =
    if e == error_service_exists
    then if scm.service_opens
      then after_calls
          (creates image_path (some e)
            ∷ opens service true
            ∷ changes_config service image_path
            ∷ [])
          (configure scm service)
      else after_calls (creates image_path (some e) ∷ opens service false ∷ []) (configure scm null)
    else (false, creates image_path (some e) ∷ closes manager ∷ [])

-- Steps 4 to 8.
unfoldable pub register : Scm → Bool × List Call
unfolding create_service
register scm =
    if scm.manager_opens
    then after_calls (opens manager true ∷ []) (create_service scm scm.create_error)
    else (false, opens manager false ∷ [])

pub record Ran : Type 0 where
  pub ok : Bool
  pub files : Files
  pub calls : List Call

unfoldable pub install : Scm → Files → Text → Text → Option Fault → Option Fault → Ran
unfolding register
install scm fs exec_path config_path binary_fault config_fault =
    elim (copy_file fs exec_path dest_bin binary_fault) [
      | refused what fs' ↦ record { ok = false; files = fs'; calls = [] }
      | copied fs₁ ↦ record {
        ok = (register scm).0;
        files = place_config fs₁ dest_cfg config_path config_fault;
        calls = (register scm).1;
      }
    ]

-- The manager and the service are opened, used once, and closed: `start`, `stop` and `isRunning`.
on_service : Scm → Call → Bool → Bool × List Call
on_service scm use_it answer =
    if scm.manager_opens
    then if scm.service_opens
      then (
        answer,
        opens manager true ∷ opens service true ∷ use_it ∷ closes service ∷ closes manager ∷ [],
      )
      else (false, opens manager true ∷ opens service false ∷ closes manager ∷ [])
    else (false, opens manager false ∷ [])

unfoldable pub start : Scm → Bool × List Call
unfolding on_service
start scm =
    on_service scm (starts service)
      (elim (scm.start_error service) [ none ↦ true | some e ↦ false ])

unfoldable pub stop : Scm → Bool × List Call
unfolding on_service
stop scm = on_service scm (stops service) scm.stop_works

unfoldable pub is_running : Scm → Bool × List Call
unfolding on_service
is_running scm = on_service scm (queries service) scm.running

-- The result of `stop` is ignored.
unfoldable pub uninstall : Scm → Bool × List Call
unfolding stop on_service after_calls
uninstall scm = after_calls (stop scm).1 (
    on_service
      (record scm { manager_opens = scm.manager_reopens; service_opens = scm.service_reopens })
      (deletes service) scm.delete_works)
