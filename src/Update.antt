-- ===== src/Update.antt =====
-- src/services/UpdateManager.cpp: the update of the agent's own binary, on POSIX systems. What the
-- network, the file system and the service manager answer is a parameter, the answers of one run.
-- `fs::remove` of the downloaded file does not fail.
pub mod Safety
pub mod Tests
use orbis_agent_desktop.Base.{
  ℕ, Bool, false, ◌&&◌, not, ◌==◌, List, [], ◌∷◌, ◌++◌, Option, none, some, Text, text, text_eq,
  is_empty, if◌then◌else◌,
}
use orbis_agent_desktop.Base.Hex.{to_hex}
use orbis_agent_desktop.Base.Files.{Files, Fault, write, remove, copied, refused, copy_file}
use orbis_agent_desktop.Json.{JsonLib}
use orbis_agent_desktop.Topics.{topic_for, topic_results_fmt, topic_update_progress_fmt}

-- What libcurl does with a download.
pub data Download : Type 0 where
  init_failed : Download
  cannot_open : Download
  transferred : (content : List ℕ) → (curl_ok : Bool) → (http_code : ℕ) → Download

pub record World : Type 0 where
  pub sha256 : List ℕ → List ℕ
  pub binary_path : Text
  -- What `currentBinaryPath` gives after the rename: on Linux the link `/proc/self/exe` names the file
  -- that the program runs from, which the rename took away, as the path with " (deleted)" behind it.
  pub path_after_rename : Text
  pub download : Download
  -- The faults of the copies, of the rename and of the change of permissions.
  pub backup_fault : Option Fault
  pub rename_fault : Bool
  pub permissions_fault : Option Text
  pub rollback_fault : Option Fault
  -- Whether the downloaded file can be opened to hash it, and a digest context be had.
  pub can_hash : Bool
  pub restart_rc : ℕ

-- A publish on the progress topic, with its step, and one on the results topic.
pub data Report : Type 0 where
  progress : (step output error : Text) → Report
  result : (statut output error : Text) → Report

-- How `update` ends: it returns, or an exception leaves the detached thread, which ends the process.
pub data Ending : Type 0 where
  returned terminated : Ending

pub record Run : Type 0 where
  pub files : Files
  pub reports : List Report
  pub ending : Ending

pub verify_sha256 : World → Files → Text → Text → Bool
verify_sha256 w fs path expected_hex = elim (fs path) [
  | none ↦ false
  | some content ↦ w.can_hash && text_eq (to_hex (w.sha256 content)) expected_hex
]

pub download_binary : Files → Text → Download → Files × Bool
download_binary fs dest init_failed = (fs, false)
download_binary fs dest cannot_open = (fs, false)
download_binary fs dest (transferred content curl_ok http_code) =
    (write fs dest content, curl_ok && http_code == 200)

pub data Replaced : Type 0 where
  replaced : Files → Replaced
  rename_failed : Replaced
  permissions_threw : Files → Replaced

-- `rename`, and the permissions, whose exception is not caught.
move_binary : World → Files → Text → Text → Option (List ℕ) → Replaced
move_binary w fs new current none = rename_failed
move_binary w fs new current (some content) =
    let moved = remove (write fs current content) new in
    if w.rename_fault
    then rename_failed
    else elim w.permissions_fault [ none ↦ replaced moved | some what ↦ permissions_threw moved ]

pub replace_binary : World → Files → Text → Replaced
unfolding move_binary
replace_binary w fs new_path = move_binary w fs new_path w.binary_path (fs new_path)

-- From what `currentBinaryPath` gives and the backup. Its result is not used by `update`.
pub rollback : World → Files → Text → Text → Files
rollback w fs current backup_path = elim (copy_file fs backup_path current w.rollback_fault) [
  | copied fs' ↦ fs'
  | refused what fs' ↦ fs'
]

failed_run : Files → List Report → Text → Text → Run
failed_run fs before step error = record {
  files = fs;
  reports = before ++ (progress (text "failed") [] step ∷ result (text "failed") [] error ∷ []);
  ending = returned;
}

abbrev pub backup_path : World → Text
backup_path w = w.binary_path ++ text ".bak"

abbrev pub tmp_path : World → Text
tmp_path w = w.binary_path ++ text ".new"

-- Step 6.
restart : World → Files → Text → List Report → Run
restart w fs version before =
    let restarting = progress (text "restarting") (text "Restarting service") [] in
    let message = text "Updated to " ++ (version ++ text " successfully") in
    if w.restart_rc == 0
    then record {
      files = fs;
      reports =
          before
          ++ (restarting
              ∷ progress (text "success") message []
              ∷ result (text "success") message []
              ∷ []);
      ending = returned;
    }
    else record {
      files = rollback w fs w.path_after_rename (backup_path w);
      reports =
          before
          ++ (restarting
              ∷ progress (text "rollback") [] (text "Service restart failed — rolled back")
              ∷ result (text "failed") [] (text "Service restart failed, rolled back")
              ∷ []);
      ending = returned;
    }

-- Step 5.
replace : World → Files → Text → List Report → Run
replace w fs version before =
    let replacing = before ++ progress (text "replacing") (text "Replacing binary") [] ∷ [] in
    elim (replace_binary w fs (tmp_path w)) [
      | replaced fs' ↦ restart w fs' version replacing
      | rename_failed ↦ record {
        files = rollback w (remove fs (tmp_path w)) w.binary_path (backup_path w);
        reports =
            replacing
            ++ (progress (text "rollback") [] (text "Binary replacement failed — rolled back")
                ∷ result (text "failed") [] (text "Binary replacement failed")
                ∷ []);
        ending = returned;
      }
      | permissions_threw fs' ↦ record { files = fs'; reports = replacing; ending = terminated }
    ]

-- Step 4.
verify : World → Files → Text → Text → List Report → Run
verify w fs sha256 version before =
    let verifying = before ++ progress (text "verifying") (text "Verifying SHA-256") [] ∷ [] in
    if not (is_empty sha256) && not (verify_sha256 w fs (tmp_path w) sha256)
    then failed_run (remove fs (tmp_path w)) verifying (text "SHA256 mismatch")
        (text "SHA256 mismatch")
    else replace w fs version verifying

-- Step 3.
fetch : World → Files → Text → Text → Text → Run
fetch w fs url sha256 version =
    let downloading = progress (text "downloading") (text "Downloading " ++ url) [] ∷ [] in
    let (fs', downloaded) = download_binary fs (tmp_path w) w.download in
    if not downloaded
    then failed_run (remove fs' (tmp_path w)) downloading (text "Download failed: " ++ url)
        (text "Download failed: " ++ url)
    else verify w fs' sha256 version downloading

-- `update`, from its step 2.
pub update : World → Files → Text → Text → Text → Run
update w fs url sha256 version = elim (copy_file fs w.binary_path (backup_path w) w.backup_fault) [
  | refused what fs' ↦ record {
    files = fs';
    reports = result (text "failed") [] (text "Backup failed: " ++ what) ∷ [];
    ending = returned;
  }
  | copied fs' ↦ fetch w fs' url sha256 version
]

-- `publishResult` and `publishProgress`: the topic and the document of a report.
module _ (json : JsonLib) (device_id command_id timestamp : Text) where
  null_if_empty : Text → json.Value
  null_if_empty s = if is_empty s then json.null else json.of_text s

  pub report_doc : Report → json.Value
  unfolding null_if_empty
  report_doc (result statut output error) = json.object (
      (text "command_id", json.of_text command_id)
      ∷ (text "device_id", json.of_text device_id)
      ∷ (text "statut", json.of_text statut)
      ∷ (text "output", null_if_empty output)
      ∷ (text "error", null_if_empty error)
      ∷ (text "exit_code", json.null)
      ∷ (text "timestamp", json.of_text timestamp)
      ∷ [])
  report_doc (progress step output error) = json.object (
      (text "command_id", json.of_text command_id)
      ∷ (text "device_id", json.of_text device_id)
      ∷ (text "statut", json.of_text (text "executing"))
      ∷ (text "step", json.of_text step)
      ∷ (text "output", null_if_empty output)
      ∷ (text "error", null_if_empty error)
      ∷ (text "timestamp", json.of_text timestamp)
      ∷ [])

  pub report_topic : Report → Text
  report_topic (result statut output error) = topic_for topic_results_fmt device_id
  report_topic (progress step output error) = topic_for topic_update_progress_fmt device_id
