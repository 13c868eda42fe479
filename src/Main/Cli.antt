-- ===== src/Main/Cli.antt =====
-- The command line of src/main.cpp: the arguments, and the branches that end the program before it runs
-- as a service. The digest, the installer's system and whether files open are parameters.
pub mod Install
use orbis_agent_desktop.Base.{
  ℕ, Bool, true, false, List, [], ◌∷◌, ◌++◌, Option, none, some, Text, text, text_eq, is_empty,
  if◌then◌else◌,
}
use orbis_agent_desktop.Base.Files.{Files, write, remove}
use orbis_agent_desktop.Installer.{System, dest_cfg}
use orbis_agent_desktop.Installer as Installer
use orbis_agent_desktop.Uninstall.{verify_uninstall_code, install_key, uninstall_key_path}
use orbis_agent_desktop.Uninstall as Uninstall
use orbis_agent_desktop.Main.FirstConfig.{first_config}

-- `constants::DEFAULT_CONFIG_PATH`
abbrev pub default_config_path : Text
default_config_path = text "/etc/orbis-agent/config.toml"

-- The variables that the arguments set.
pub record Options : Type 0 where
  pub config_path : Text
  pub server_url : Text
  pub reg_token : Text
  pub uninstall_code : Text
  pub do_install : Bool
  pub do_uninstall : Bool
  pub do_run : Bool
  pub do_version : Bool
  pub do_status : Bool
  pub do_verify_uninstall : Bool

pub no_options : Options
no_options = record {
  config_path = default_config_path;
  server_url = [];
  reg_token = [];
  uninstall_code = [];
  do_install = false;
  do_uninstall = false;
  do_run = false;
  do_version = false;
  do_status = false;
  do_verify_uninstall = false;
}

-- An argument that is a flag.
flag : Options → Text → Option Options
flag o arg =
    if text_eq arg (text "--install")
    then some (record o { do_install = true })
    else if text_eq arg (text "--uninstall")
    then some (record o { do_uninstall = true })
    else if text_eq arg (text "--verify-uninstall-code")
    then some (record o { do_verify_uninstall = true })
    else if text_eq arg (text "--run")
    then some (record o { do_run = true })
    else if text_eq arg (text "--version")
    then some (record o { do_version = true })
    else if text_eq arg (text "--status")
    then some (record o { do_status = true })
    else none

-- An argument that takes the next one as its value.
option : Options → Text → Text → Option Options
option o arg value =
    if text_eq arg (text "--config")
    then some (record o { config_path = value })
    else if text_eq arg (text "--server")
    then some (record o { server_url = value })
    else if text_eq arg (text "--token")
    then some (record o { reg_token = value })
    else if text_eq arg (text "--uninstall-code")
    then some (record o { uninstall_code = value })
    else none

-- The arguments after the program's name; an unknown one, or an option without a value, is ignored.
pub parse_args : Options → List Text → Options
unfolding flag option
parse_args o [] = o
parse_args o (arg ∷ []) = elim (flag o arg) [ some o' ↦ o' | none ↦ o ]
parse_args o (arg ∷ value ∷ args) =
    let next : Options = elim (flag o arg) [ some o' ↦ o' | none ↦ o ] in
    let set : Options = elim (option o arg value) [ some o' ↦ o' | none ↦ o ] in
    let shifted = parse_args next (value ∷ args) in
    let skipped = parse_args set args in
    elim (flag o arg) [
      | some o' ↦ shifted
      | none ↦ elim (option o arg value) [ some o' ↦ skipped | none ↦ shifted ]
    ]

-- The machine of one run: what the system answers, and whether the first configuration and the key
-- file open for writing.
pub record Machine : Type 0 where
  pub system : System
  pub exec_path : Text
  pub config_opens : Bool
  pub key_opens : Bool

-- The exit code and the files, or that the program goes on as the agent.
pub data Ending : Type 0 where
  exit : ℕ → Files → Ending
  goes_on : Options → Ending

unfoldable pub exit_code : Bool → ℕ
exit_code true = 0
exit_code false = 1

module _ (sha256 : Text → List ℕ) where
  -- `--install`
  unfoldable pub install_command : Machine → Files → Options → ℕ × Files
  unfolding exit_code
  install_command m fs o =
      let fs₁ =
        if m.config_opens
        then write fs o.config_path (first_config o.server_url o.reg_token)
        else fs in
      let (fs₂, saved) = install_key sha256 fs₁ m.key_opens o.uninstall_code in
      let ran = Installer.install m.system fs₂ m.exec_path o.config_path in
      if is_empty o.server_url then (1, fs) else (exit_code ran.ok, ran.files)

  -- `--uninstall`: the key is removed after a successful run of the installer.
  pub uninstall_command : Machine → Files → Options → ℕ × Files
  uninstall_command m fs o =
      let ran = Installer.uninstall fs in
      let checked = Uninstall.uninstall sha256 fs o.uninstall_code ran.ok in
      if checked.uninstalled
      then (checked.code, if ran.ok then remove ran.files uninstall_key_path else ran.files)
      else (checked.code, fs)

  -- `main`, up to the branch of a normal run; the first of the branches in this order is taken.
  pub main_branches : Machine → Files → List Text → Ending
  unfolding parse_args install_command uninstall_command exit_code
  main_branches m fs args =
      let o = parse_args no_options args in
      let (installed, fs₁) = install_command m fs o in
      let (uninstalled, fs₂) = uninstall_command m fs o in
      if o.do_version
      then exit 0 fs
      else if o.do_verify_uninstall
      then if is_empty o.uninstall_code
        then exit 1 fs
        else exit (exit_code (verify_uninstall_code sha256 fs o.uninstall_code)) fs
      else if o.do_install
      then exit installed fs₁
      else if o.do_uninstall
      then exit uninstalled fs₂
      else if o.do_status
      then exit (exit_code (Installer.is_running m.system)) fs
      else goes_on o
