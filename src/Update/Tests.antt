-- ===== src/Update/Tests.antt =====
-- An update on Linux whose restart fails: the rollback writes to "/a (deleted)".
use orbis_agent_desktop.Base.{
  ◌≡◌, refl, ◌∷◌, [], none, some, Text, text, text_eq, true, false, if◌then◌else◌,
}
use orbis_agent_desktop.Base.Files.{Files}
use orbis_agent_desktop.Base.Files.{write, remove, copy_file, copy_content}
use orbis_agent_desktop.Base.Hex.{to_hex}
use orbis_agent_desktop.Update.{
  fetch, verify, replace, restart, failed_run, download_binary, verify_sha256, replace_binary,
  move_binary, rollback, World, transferred, update,
}
use orbis_agent_desktop.Update.Safety.{Ends, update-Ends}

abbrev unlucky : World
unlucky = record {
  sha256 = λ content. content;
  binary_path = 47 ∷ 97 ∷ [];
  path_after_rename = text "/a (deleted)";
  download = transferred (1 ∷ 2 ∷ []) true 200;
  backup_fault = none;
  rename_fault = false;
  permissions_fault = none;
  rollback_fault = none;
  can_hash = true;
  restart_rc = 1;
}

abbrev installed : Files
installed path = if text_eq path unlucky.binary_path then some (7 ∷ []) else none

-- The digest of the download, "0102".
abbrev digest : Text
digest = 48 ∷ 49 ∷ 48 ∷ 50 ∷ []

update-Ends_example :
    Ends unlucky digest (7 ∷ []) (update unlucky installed (117 ∷ []) digest (50 ∷ []))
update-Ends_example =
    update-Ends unlucky digest (7 ∷ []) installed (117 ∷ []) (50 ∷ []) (unfold text_eq in refl) refl

-- The run of this input: the binary of the download stays, and the last report says that it does not.
unlucky_binary :
    (update unlucky installed (117 ∷ []) digest (50 ∷ [])).files unlucky.binary_path
    ≡ some (1 ∷ 2 ∷ [])
unfolding update fetch verify replace restart failed_run download_binary verify_sha256
    replace_binary move_binary rollback copy_file copy_content write remove text_eq text to_hex
unlucky_binary = refl
