-- ===== src/Installer/Tests.antt =====
-- The installation on a machine that holds the program alone.
use orbis_agent_desktop.Base.{◌≡◌, true, none, some, Text, text, text_eq, if◌then◌else◌}
use orbis_agent_desktop.Base.Files.{Files}
use orbis_agent_desktop.Installer.{System, install}
use orbis_agent_desktop.Installer.Kept.{KeepsConfig, Done, install_lem}

abbrev pub exec_path : Text
exec_path = text "/tmp/a"

abbrev pub program_only : Files
program_only p = if text_eq p exec_path then some (text "elf") else none

abbrev pub obliging : System
obliging = record {
  directories_made = true;
  binary_fault = none;
  config_fault = none;
  config_opens = true;
  unit_opens = true;
  exit_code = λ command. 0;
}

install_lem_example :
    let r = install obliging program_only exec_path (text "/none") in
    KeepsConfig program_only r.files × (r.ok ≡ true → Done obliging program_only exec_path r)
install_lem_example = install_lem obliging program_only exec_path (text "/none")
