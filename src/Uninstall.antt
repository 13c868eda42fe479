-- ===== src/Uninstall.antt =====
-- src/main.cpp: the code that protects the agent from being uninstalled. The digest of OpenSSL, and
-- whether the key file can be written and the installer succeeds, are parameters; the directories
-- of the key file exist.
pub mod Protection
pub mod Tests
use orbis_agent_desktop.Base.{
  ℕ, Bool, true, false, not, ◌&&◌, List, [], ◌∷◌, ◌++◌, Option, none, some, Text, text, text_eq,
  is_empty, if◌then◌else◌, ◌==◌, ◌||◌,
}
use orbis_agent_desktop.Base.Files.{Files, write, remove}
use orbis_agent_desktop.Base.Hex.{to_hex}

abbrev pub uninstall_key_path : Text
uninstall_key_path = text "/etc/orbis-agent/.uninstall_key"

abbrev pub default_uninstall_code : Text
default_uninstall_code = text "orbis2026"

-- `std::getline`: the characters before the first end of line.
unfoldable pub first_line : Text → Text
first_line [] = []
first_line (c ∷ s) = let rest = first_line s in if c == 10 then [] else c ∷ rest

-- What a run of the program with `--uninstall` does: its exit code, the files, and whether the
-- installer was called.
pub record Exit : Type 0 where
  pub code : ℕ
  pub files : Files
  pub uninstalled : Bool

module _ (sha256 : Text → List ℕ) where
  pub sha256hex : Text → Text
  sha256hex input = to_hex (sha256 input)

  unfoldable pub save_uninstall_key : Files → Bool → Text → Files × Bool
  unfolding sha256hex
  save_uninstall_key fs can_write code =
      if can_write
      then (write fs uninstall_key_path (sha256hex code ++ 10 ∷ []), true)
      else (fs, false)

  matches : Text → Text → Bool
  matches code stored_hash = not (is_empty stored_hash) && text_eq (sha256hex code) stored_hash

  pub verify_uninstall_code : Files → Text → Bool
  unfolding matches first_line
  verify_uninstall_code fs code = elim (fs uninstall_key_path) [
    | none ↦ false
    | some content ↦ matches code (first_line content)
  ]

  -- The part of `--install` that saves the key.
  unfoldable pub install_key : Files → Bool → Text → Files × Bool
  unfolding save_uninstall_key
  install_key fs can_write uninstall_code =
      save_uninstall_key fs can_write
        (if is_empty uninstall_code then default_uninstall_code else uninstall_code)

  run_installer : Files → Bool → Exit
  run_installer fs installer_ok =
      if installer_ok
      then record { code = 0; files = remove fs uninstall_key_path; uninstalled = true }
      else record { code = 1; files = fs; uninstalled = true }

  -- `--uninstall`, where a key file that exists can be read.
  pub uninstall : Files → Text → Bool → Exit
  unfolding verify_uninstall_code run_installer
  uninstall fs uninstall_code installer_ok = elim (fs uninstall_key_path) [
    | none ↦ run_installer fs installer_ok
    | some content ↦
        if is_empty uninstall_code || not (verify_uninstall_code fs uninstall_code)
        then record { code = 1; files = fs; uninstalled = false }
        else run_installer fs installer_ok
  ]
