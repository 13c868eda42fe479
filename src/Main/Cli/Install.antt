-- ===== src/Main/Cli/Install.antt =====
-- The configuration that `--install` leaves at the path that the service reads.
use orbis_agent_desktop.Base.{
  ℕ, ◌≡◌, refl, ap, ◌∙◌, Bool, true, false, List, some, Text, text, is_empty, if◌then◌else◌, apart,
  text_eq, ◌≢◌, arith,
}
use orbis_agent_desktop.Base.Files.{Files, write, write_self}
use orbis_agent_desktop.Installer.{dest_cfg, install}
use orbis_agent_desktop.Installer.Kept.{or_default, install-config}
use orbis_agent_desktop.Uninstall.{install_key, uninstall_key_path}
use orbis_agent_desktop.Uninstall.Protection.{install_key-elsewhere}
use orbis_agent_desktop.Main.Cli.{Machine, Options, install_command, exit_code}
use orbis_agent_desktop.Main.FirstConfig.{first_config}

exit_code_lem : (b : Bool) → exit_code b ≡ 0 → b ≡ true
unfolding exit_code
exit_code_lem true e = refl
exit_code_lem false e = absurd (omega arith)

cfg-key : dest_cfg ≢ uninstall_key_path
unfolding text_eq text
cfg-key = apart dest_cfg uninstall_key_path refl

-- The first configuration, before the installer runs.
first-in_place :
    (fs : Files) (content : Text) (b : Bool)
    → or_default ((if b then write fs dest_cfg content else fs) dest_cfg)
      ≡ (if b then content else or_default (fs dest_cfg))
first-in_place fs content true = ap or_default (write_self fs dest_cfg content)
first-in_place fs content false = refl

-- Where the installer can open the file of the configuration for writing: a successful `--install` for
-- the default path leaves there the configuration with the server of the command line, whatever was
-- there, if that file could be opened before the installer ran too; if it could not, the server is not
-- used: a configuration that was there is kept, and without one the default for `localhost` is
-- written.
pub install_command-config :
    (sha256 : Text → List ℕ) (m : Machine) (fs : Files) (o : Options)
    → o.config_path ≡ dest_cfg
    → is_empty o.server_url ≡ false
    → m.system.config_opens ≡ true
    → (install_command sha256 m fs o).0 ≡ 0
    → (install_command sha256 m fs o).1 dest_cfg
      ≡ some (
          if m.config_opens
          then first_config o.server_url o.reg_token
          else or_default (fs dest_cfg))
unfolding install_command
install_command-config sha256 m fs o path server opens code =
    let first = first_config o.server_url o.reg_token in
    let fs₁ : Files = if m.config_opens then write fs dest_cfg first else fs in
    let fs₂ = (install_key sha256 fs₁ m.key_opens o.uninstall_code).0 in
    let ok : (install m.system fs₂ m.exec_path dest_cfg).ok ≡ true =
      exit_code_lem _ (rw path at (rw server at code)) in
    rw server (
      rw path (
        install-config m.system fs₂ m.exec_path opens ok
        ∙ ap (λ x. some (or_default x))
            (install_key-elsewhere sha256 fs₁ m.key_opens o.uninstall_code dest_cfg cfg-key)
        ∙ ap some (first-in_place fs first m.config_opens)))
