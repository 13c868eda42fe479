-- ===== src/Installer/MacOs.antt =====
-- src/platform/MacOSService.cpp: the installer of the launchd service, over the files of the machine and
-- the commands of the system. Permissions of files are not modelled.
use orbis_agent_desktop.Base.{
  ℕ, Bool, true, false, [], ◌∷◌, ◌++◌, Option, some, Text, text, if◌then◌else◌, ◌==◌, ==_iff, ◌≡◌,
  ◌≢◌, refl, ◌∙◌, Bool-cases, inl, inr, text_eq, apart,
}
use orbis_agent_desktop.Base.Files.{
  Files, Fault, Copied, copied, refused, write, remove, copy_file, write_self, write_ne,
  copy_file_copied,
}
use orbis_agent_desktop.Installer.{binary_install_path, dest_cfg, Ran}
use orbis_agent_desktop.Installer.Copies.{
  place_config, place_config-elsewhere, place_config-Keeps, Keeps, Keeps-then, write-Keeps,
  refused-Keeps,
}
use orbis_agent_desktop.Installer.Kept.{cfg-binary, binary-cfg}

abbrev pub launchd_label : Text
launchd_label = text "com.orbis.agent"

abbrev pub launchd_plist_path : Text
launchd_plist_path = text "/Library/LaunchDaemons/com.orbis.agent.plist"

-- What the system answers to one run; the error of making the directory is overwritten by the copy's.
pub record Mac : Type 0 where
  pub binary_fault : Option Fault
  pub config_fault : Option Fault
  pub plist_opens : Bool
  pub exit_code : Text → ℕ

abbrev pub plist : Text
plist =
    text
      "<?xml version=\"1.0\" encoding=\"UTF-8\"?>\n<!DOCTYPE plist PUBLIC \"-//Apple//DTD PLIST 1.0//EN\"\n  \"http://www.apple.com/DTDs/PropertyList-1.0.dtd\">\n<plist version=\"1.0\">\n<dict>\n  <key>Label</key><string>"
    ++ (launchd_label
        ++ (text "</string>\n  <key>ProgramArguments</key>\n  <array>\n    <string>"
            ++ (binary_install_path
                ++ (text "</string>\n    <string>--config</string>\n    <string>"
                    ++ (dest_cfg
                        ++ text
                            "</string>\n  </array>\n  <key>RunAtLoad</key><true/>\n  <key>KeepAlive</key><true/>\n  <key>StandardOutPath</key><string>/var/log/orbis-agent.log</string>\n  <key>StandardErrorPath</key><string>/var/log/orbis-agent-error.log</string>\n</dict>\n</plist>\n")))))

abbrev pub load_cmd : Text
load_cmd = text "launchctl load -w " ++ launchd_plist_path

abbrev unload_cmd : Text
unload_cmd = text "launchctl unload -w " ++ launchd_plist_path

abbrev start_cmd : Text
start_cmd = text "launchctl start " ++ launchd_label

abbrev stop_cmd : Text
stop_cmd = text "launchctl stop " ++ launchd_label

unfoldable pub install : Mac → Files → Text → Text → Ran
install mac fs exec_path config_path =
    elim (copy_file fs exec_path binary_install_path mac.binary_fault) [
      | refused what fs' ↦ record { ok = false; files = fs'; commands = [] }
      | copied fs₁ ↦
          let fs₂ = place_config fs₁ dest_cfg config_path mac.config_fault in
          if mac.plist_opens
          then record {
            ok = mac.exit_code load_cmd == 0;
            files = write fs₂ launchd_plist_path plist;
            commands = load_cmd ∷ [];
          }
          else record { ok = false; files = fs₂; commands = [] }
    ]

-- The exit codes are ignored; `fs::remove` may throw, which is not modelled.
pub uninstall : Files → Ran
uninstall fs = record {
  ok = true;
  files = remove fs launchd_plist_path;
  commands = stop_cmd ∷ unload_cmd ∷ [];
}

pub start : Mac → Bool
start mac = mac.exit_code start_cmd == 0

pub stop : Mac → Bool
stop mac = mac.exit_code stop_cmd == 0

pub is_running : Mac → Bool
is_running mac =
    mac.exit_code (text "launchctl list " ++ (launchd_label ++ text " > /dev/null 2>&1")) == 0

-- No path but these three is written.
abbrev pub Elsewhere : Text → Type 0
Elsewhere p = (p ≢ binary_install_path) × (p ≢ dest_cfg) × (p ≢ launchd_plist_path)

binary-plist : binary_install_path ≢ launchd_plist_path
unfolding text_eq text
binary-plist = apart binary_install_path launchd_plist_path refl

cfg-plist : dest_cfg ≢ launchd_plist_path
unfolding text_eq text
cfg-plist = apart dest_cfg launchd_plist_path refl

-- What a successful run has done.
abbrev pub Done : Mac → Files → Text → Ran → Type 0
Done mac fs exec_path r =
    (content : Text) × (fs exec_path ≡ some content)
    × (r.files binary_install_path ≡ some content)
    × (r.files launchd_plist_path ≡ some plist)
    × (r.commands ≡ load_cmd ∷ [])
    × (mac.exit_code load_cmd ≡ 0)

copied-install :
    (mac : Mac) (fs fs₁ : Files) (exec_path config_path : Text)
    → copy_file fs exec_path binary_install_path mac.binary_fault ≡ copied fs₁
    → let r = install mac fs exec_path config_path in
      Keeps Elsewhere dest_cfg fs r.files × (r.ok ≡ true → Done mac fs exec_path r)
unfolding install
copied-install mac fs fs₁ exec_path config_path e =
    let (content, f, g) =
      copy_file_copied fs fs₁ exec_path binary_install_path mac.binary_fault e in
    let fs₂ = place_config fs₁ dest_cfg config_path mac.config_fault in
    let k : Keeps Elsewhere dest_cfg fs fs₂ = rw g (
      Keeps-then Elsewhere dest_cfg fs (write fs binary_install_path content) _
        (write-Keeps Elsewhere dest_cfg fs binary_install_path content (λ p h. h.0) cfg-binary)
        (place_config-Keeps dest_cfg Elsewhere (λ p h. h.1) (write fs binary_install_path content)
          config_path mac.config_fault)) in
    let fs₃ = write fs₂ launchd_plist_path plist in
    let k' : Keeps Elsewhere dest_cfg fs fs₃ =
      Keeps-then Elsewhere dest_cfg fs fs₂ fs₃ k
        (write-Keeps Elsewhere dest_cfg fs₂ launchd_plist_path plist (λ p h. h.2) cfg-plist) in
    let binary : fs₃ binary_install_path ≡ some content =
      write_ne fs₂ launchd_plist_path binary_install_path plist binary-plist
      ∙ place_config-elsewhere dest_cfg fs₁ config_path binary_install_path mac.config_fault
          binary-cfg
      ∙ (rw g (write_self fs binary_install_path content)) in
    rw (e, install)
      (elim (Bool-cases mac.plist_opens) [
        | inr u ↦ rw u (k, λ h. cc)
        | inl u ↦ rw u (
          k',
          λ h.
              (content, f, binary, write_self fs₂ launchd_plist_path plist, refl, (==_iff _ _).0 h),
        )
      ])

-- Every run of the installer for macOS writes to no path but those of the binary, the configuration and
-- the plist, and keeps a configuration that is in its place; one that succeeds has put the program at the
-- path of the binary and the plist at its own, and launchd has loaded the plist.
install-Keeps :
    (mac : Mac) (fs : Files) (exec_path config_path : Text)
    → let r = install mac fs exec_path config_path in
      Keeps Elsewhere dest_cfg fs r.files × (r.ok ≡ true → Done mac fs exec_path r)
unfolding install
install-Keeps mac fs exec_path config_path =
    go (copy_file fs exec_path binary_install_path mac.binary_fault) refl
  where
    go :
        (c : Copied)
        → copy_file fs exec_path binary_install_path mac.binary_fault ≡ c
        → let r = install mac fs exec_path config_path in
          Keeps Elsewhere dest_cfg fs r.files × (r.ok ≡ true → Done mac fs exec_path r)
    go (copied fs₁) e = copied-install mac fs fs₁ exec_path config_path e
    go (refused what fs') e =
        rw (e, install)
          (
            refused-Keeps Elsewhere dest_cfg fs fs' exec_path binary_install_path what
                mac.binary_fault e (λ p h. h.0) cfg-binary,
            λ h. cc,
          )
