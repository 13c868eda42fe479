-- ===== src/Installer.antt =====
-- src/platform/LinuxService.cpp: the installer of the systemd service, over the files of the machine.
-- What the system answers is a parameter: whether directories and files can be made, the faults of
-- copies, and the exit codes of commands. Permissions of files are not modelled.
pub mod Copies
pub mod Kept
pub mod MacOs
pub mod Windows
pub mod Tests
use orbis_agent_desktop.Base.{
  ℕ, Bool, true, false, not, ◌&&◌, List, [], ◌∷◌, ◌++◌, Option, none, some, Text, text, is_empty,
  if◌then◌else◌, ◌==◌,
}
use orbis_agent_desktop.Base.Files.{Files, Fault, Copied, copied, refused, write, remove, copy_file}
use Copies.{after_copy}

abbrev pub binary_install_path : Text
binary_install_path = text "/usr/bin/orbis-agent"

abbrev pub systemd_unit_path : Text
systemd_unit_path = text "/etc/systemd/system/orbis-agent.service"

-- `config_dir + "/config.toml"`
abbrev pub dest_cfg : Text
dest_cfg = text "/etc/orbis-agent/config.toml"

-- What the system answers to one run.
pub record System : Type 0 where
  pub directories_made : Bool
  pub binary_fault : Option Fault
  pub config_fault : Option Fault
  pub config_opens : Bool
  pub unit_opens : Bool
  pub exit_code : Text → ℕ

-- The result of a run, with the files and the commands given to the system, in order.
pub record Ran : Type 0 where
  pub ok : Bool
  pub files : Files
  pub commands : List Text

abbrev pub default_config : Text
default_config =
    text
      "# Orbis Agent config — edit before starting\n[agent]\ndevice_id = \"\"\ntoken = \"\"\n[mqtt]\nbroker_host = \"localhost\"\nbroker_port = 8883\nuse_tls = true\n[heartbeat]\ninterval_sec = 30\n[logs]\ninterval_sec = 60\n"

abbrev pub unit_file : Text
unit_file =
    text
      "[Unit]\nDescription=Orbis remote monitoring and management agent\nAfter=network.target\nStartLimitIntervalSec=0\n\n[Service]\nType=simple\nExecStart=/usr/bin/orbis-agent --config /etc/orbis-agent/config.toml\nRestart=always\nRestartSec=2\nStartLimitBurst=0\nUser=root\nStandardOutput=journal\nStandardError=journal\nSyslogIdentifier=orbis-agent\n\n[Install]\nWantedBy=multi-user.target\n"

abbrev pub daemon_reload : Text
daemon_reload = text "systemctl daemon-reload"

abbrev pub enable_cmd : Text
enable_cmd = text "systemctl enable orbis-agent"

abbrev pub start_cmd : Text
start_cmd = text "systemctl start orbis-agent"

abbrev pub stop_cmd : Text
stop_cmd = text "systemctl stop orbis-agent"

abbrev pub disable_cmd : Text
disable_cmd = text "systemctl disable orbis-agent"

-- Step 3: no configuration is written where one is.
unfoldable pub copy_config : System → Files → Text → Files
unfolding after_copy
copy_config sys fs config_path = elim (fs dest_cfg) [
  | some content ↦ fs
  | none ↦ elim (fs config_path) [
    | none ↦ if sys.config_opens then write fs dest_cfg default_config else fs
    | some content ↦
        if is_empty config_path
        then if sys.config_opens then write fs dest_cfg default_config else fs
        else after_copy fs (copy_file fs config_path dest_cfg sys.config_fault)
  ]
]

-- Step 5; the exit code of `daemon-reload` is ignored.
unfoldable pub enable : System → Files → Ran
enable sys fs =
    if not (sys.exit_code enable_cmd == 0)
    then record { ok = false; files = fs; commands = daemon_reload ∷ enable_cmd ∷ [] }
    else record {
      ok = sys.exit_code start_cmd == 0;
      files = fs;
      commands = daemon_reload ∷ enable_cmd ∷ start_cmd ∷ [];
    }

unfoldable pub install : System → Files → Text → Text → Ran
unfolding copy_config enable
install sys fs exec_path config_path =
    if sys.directories_made
    then elim (copy_file fs exec_path binary_install_path sys.binary_fault) [
      | refused what fs' ↦ record { ok = false; files = fs'; commands = [] }
      | copied fs₁ ↦
          let fs₂ = copy_config sys fs₁ config_path in
          if sys.unit_opens
          then enable sys (write fs₂ systemd_unit_path unit_file)
          else record { ok = false; files = fs₂; commands = [] }
    ]
    else record { ok = false; files = fs; commands = [] }

-- The exit codes are ignored, `stop`'s too; `fs::remove` may throw, which is not modelled.
pub uninstall : Files → Ran
uninstall fs = record {
  ok = true;
  files = remove fs systemd_unit_path;
  commands = stop_cmd ∷ disable_cmd ∷ daemon_reload ∷ [];
}

pub start : System → Bool
start sys = sys.exit_code start_cmd == 0

pub stop : System → Bool
stop sys = sys.exit_code stop_cmd == 0

pub is_running : System → Bool
is_running sys = sys.exit_code (text "systemctl is-active --quiet orbis-agent") == 0
