-- ===== src/Installer/Kept.antt =====
-- What an installation keeps, and what it has done where it succeeds.
use orbis_agent_desktop.Base.{
  ◌≡◌, ◌≢◌, refl, ◌∙◌, Bool, true, false, [], ◌∷◌, Option, none, some, Text, text, is_empty,
  if◌then◌else◌, ◌==◌, ==_iff, Bool-cases, Option-cases, inl, inr, text_eq, apart, ap,
}
use orbis_agent_desktop.Base.Files.{
  Files, Copied, copied, refused, write, copy_file, write_self, write_ne, copy_file_copied,
}
use orbis_agent_desktop.Installer.Copies.{
  after_copy-elsewhere, Keeps, Keeps-same, Keeps-then, write-Keeps, refused-Keeps,
}
use orbis_agent_desktop.Installer.{
  System, Ran, binary_install_path, systemd_unit_path, dest_cfg, default_config, unit_file,
  daemon_reload, enable_cmd, start_cmd, copy_config, enable, install,
}

-- No path but these three is written.
abbrev pub Elsewhere : Text → Type 0
Elsewhere p = (p ≢ binary_install_path) × (p ≢ dest_cfg) × (p ≢ systemd_unit_path)

pub cfg-binary : dest_cfg ≢ binary_install_path
unfolding text_eq text
cfg-binary = apart dest_cfg binary_install_path refl

cfg-unit : dest_cfg ≢ systemd_unit_path
unfolding text_eq text
cfg-unit = apart dest_cfg systemd_unit_path refl

pub binary-cfg : binary_install_path ≢ dest_cfg
unfolding text_eq text
binary-cfg = apart binary_install_path dest_cfg refl

binary-unit : binary_install_path ≢ systemd_unit_path
unfolding text_eq text
binary-unit = apart binary_install_path systemd_unit_path refl

default-elsewhere :
    (fs : Files) (p : Text) (opens : Bool)
    → p ≢ dest_cfg
    → (if opens then write fs dest_cfg default_config else fs) p ≡ fs p
default-elsewhere fs p true h = write_ne fs dest_cfg p default_config h
default-elsewhere fs p false h = refl

-- Step 3 changes the one path.
copy_config-elsewhere :
    (sys : System) (fs : Files) (config_path p : Text)
    → p ≢ dest_cfg
    → copy_config sys fs config_path p ≡ fs p
unfolding copy_config
copy_config-elsewhere sys fs config_path p h = elim (Option-cases (fs dest_cfg)) [
  | inr (content, e) ↦ rw (e, copy_config) refl
  | inl e ↦
      rw (e, copy_config)
        (elim (Option-cases (fs config_path)) [
          | inl f ↦ rw (f, copy_config) (default-elsewhere fs p sys.config_opens h)
          | inr (content, f) ↦
              rw (f, copy_config)
                (elim (Bool-cases (is_empty config_path)) [
                  | inl g ↦ rw g (default-elsewhere fs p sys.config_opens h)
                  | inr g ↦ rw g (after_copy-elsewhere fs config_path dest_cfg p sys.config_fault h)
                ])
        ])
]

copy_config-kept :
    (sys : System) (fs : Files) (config_path content : Text)
    → fs dest_cfg ≡ some content
    → copy_config sys fs config_path ≡ fs
unfolding copy_config
copy_config-kept sys fs config_path content e = rw (e, copy_config) refl

-- From one store of files to the next, other paths keep what they have, and so does a configuration
-- that is in its place.
abbrev pub KeepsConfig : Files → Files → Type 0
KeepsConfig = Keeps Elsewhere dest_cfg

copy_config-KeepsConfig :
    (sys : System) (fs : Files) (config_path : Text)
    → KeepsConfig fs (copy_config sys fs config_path)
copy_config-KeepsConfig sys fs config_path = (
  (λ p h. copy_config-elsewhere sys fs config_path p h.1),
  (λ content e. rw (copy_config-kept sys fs config_path content e) e),
)

-- What a successful run has done.
abbrev pub Done : System → Files → Text → Ran → Type 0
Done sys fs exec_path r =
    (content : Text) × (fs exec_path ≡ some content)
    × (r.files binary_install_path ≡ some content)
    × (r.files systemd_unit_path ≡ some unit_file)
    × (r.commands ≡ daemon_reload ∷ enable_cmd ∷ start_cmd ∷ [])
    × (sys.exit_code enable_cmd ≡ 0)
    × (sys.exit_code start_cmd ≡ 0)

files-enable : (sys : System) (fs : Files) → (enable sys fs).files ≡ fs
unfolding enable
files-enable sys fs = elim (Bool-cases (sys.exit_code enable_cmd == 0)) [
  | inl e ↦ rw e refl
  | inr e ↦ rw e refl
]

enable_lem :
    (sys : System) (fs : Files)
    → (enable sys fs).ok ≡ true
    → ((enable sys fs).commands ≡ daemon_reload ∷ enable_cmd ∷ start_cmd ∷ [])
      × (sys.exit_code enable_cmd ≡ 0)
      × (sys.exit_code start_cmd ≡ 0)
unfolding enable
enable_lem sys fs h = elim (Bool-cases (sys.exit_code enable_cmd == 0)) [
  | inl e ↦ rw e (refl, (==_iff _ _).0 e, (==_iff _ _).0 (rw e at h))
  | inr e ↦ let q : false ≡ true = (rw e at h) in cc
]

-- The files when the configuration is in place, and with the unit.
copied-install :
    (sys : System) (fs fs₁ : Files) (exec_path config_path : Text)
    → copy_file fs exec_path binary_install_path sys.binary_fault ≡ copied fs₁
    → sys.directories_made ≡ true
    → let r = install sys fs exec_path config_path in
      KeepsConfig fs r.files × (r.ok ≡ true → Done sys fs exec_path r)
unfolding install
copied-install sys fs fs₁ exec_path config_path e d =
    let (content, f, g) =
      copy_file_copied fs fs₁ exec_path binary_install_path sys.binary_fault e in
    let fs₂ = copy_config sys fs₁ config_path in
    let k : KeepsConfig fs fs₂ = rw g (
      Keeps-then Elsewhere dest_cfg fs (write fs binary_install_path content) _
        (write-Keeps Elsewhere dest_cfg fs binary_install_path content (λ p h. h.0) cfg-binary)
        (copy_config-KeepsConfig sys (write fs binary_install_path content) config_path)) in
    let fs₃ = write fs₂ systemd_unit_path unit_file in
    let k' : KeepsConfig fs fs₃ =
      Keeps-then Elsewhere dest_cfg fs fs₂ fs₃ k
        (write-Keeps Elsewhere dest_cfg fs₂ systemd_unit_path unit_file (λ p h. h.2) cfg-unit) in
    let binary : fs₃ binary_install_path ≡ some content =
      write_ne fs₂ systemd_unit_path binary_install_path unit_file binary-unit
      ∙ copy_config-elsewhere sys fs₁ config_path binary_install_path binary-cfg
      ∙ (rw g (write_self fs binary_install_path content)) in
    rw d (
      rw (e, install)
        (elim (Bool-cases sys.unit_opens) [
          | inr u ↦ rw u (k, λ h. cc)
          | inl u ↦ rw u (
              rw (files-enable sys fs₃) (
                k',
                λ h.
                    let (a, b, c) = enable_lem sys fs₃ h in
                    (content, f, binary, write_self fs₂ systemd_unit_path unit_file, a, b, c),
              ))
        ]))

-- Every run of the installer writes to no path but those of the binary, the configuration and the
-- unit, and keeps a configuration that is in its place; one that succeeds has put the program at the
-- path of the binary and the unit at its own, and the system has enabled and then started the service.
pub install_lem :
    (sys : System) (fs : Files) (exec_path config_path : Text)
    → let r = install sys fs exec_path config_path in
      KeepsConfig fs r.files × (r.ok ≡ true → Done sys fs exec_path r)
unfolding install
install_lem sys fs exec_path config_path = elim (Bool-cases sys.directories_made) [
  | inr d ↦ rw d (Keeps-same Elsewhere dest_cfg fs, λ h. cc)
  | inl d ↦ go (copy_file fs exec_path binary_install_path sys.binary_fault) refl d
]
  where
    go :
        (c : Copied)
        → copy_file fs exec_path binary_install_path sys.binary_fault ≡ c
        → sys.directories_made ≡ true
        → let r = install sys fs exec_path config_path in
          KeepsConfig fs r.files × (r.ok ≡ true → Done sys fs exec_path r)
    go (copied fs₁) e d = copied-install sys fs fs₁ exec_path config_path e d
    go (refused what fs') e d = rw d (
        rw (e, install)
          (
            refused-Keeps Elsewhere dest_cfg fs fs' exec_path binary_install_path what
                sys.binary_fault e (λ p h. h.0) cfg-binary,
            λ h. cc,
          ))

-- The configuration that is in its place, or the default.
abbrev pub or_default : Option Text → Text
or_default none = default_config
or_default (some content) = content

copy_config-in_place :
    (sys : System) (fs : Files)
    → sys.config_opens ≡ true
    → copy_config sys fs dest_cfg dest_cfg ≡ some (or_default (fs dest_cfg))
unfolding copy_config
copy_config-in_place sys fs opens = elim (Option-cases (fs dest_cfg)) [
  | inr (content, e) ↦ rw (e, copy_config) e
  | inl e ↦
      rw (e, copy_config) (rw (e, copy_config) (rw opens (write_self fs dest_cfg default_config)))
]

copied-install-config :
    (sys : System) (fs fs₁ : Files) (exec_path : Text)
    → sys.config_opens ≡ true
    → copy_file fs exec_path binary_install_path sys.binary_fault ≡ copied fs₁
    → sys.directories_made ≡ true
    → let r = install sys fs exec_path dest_cfg in
      r.ok ≡ true → r.files dest_cfg ≡ some (or_default (fs dest_cfg))
unfolding install
copied-install-config sys fs fs₁ exec_path opens e d =
    let (content, f, g) =
      copy_file_copied fs fs₁ exec_path binary_install_path sys.binary_fault e in
    let same : fs₁ dest_cfg ≡ fs dest_cfg =
      rw g (write_ne fs binary_install_path dest_cfg content cfg-binary) in
    let fs₂ = copy_config sys fs₁ dest_cfg in
    let fs₃ = write fs₂ systemd_unit_path unit_file in
    rw d (
      rw (e, install)
        (elim (Bool-cases sys.unit_opens) [
          | inr u ↦ rw u (λ h. cc)
          | inl u ↦ rw u (λ h. rw (files-enable sys fs₃) (
              write_ne fs₂ systemd_unit_path dest_cfg unit_file cfg-unit
              ∙ copy_config-in_place sys fs₁ opens
              ∙ ap (λ o. some (or_default o)) same))
        ]))

-- Where the installer is given the configuration at its own place, a successful run leaves there
-- what was there, or the default configuration.
pub install-config :
    (sys : System) (fs : Files) (exec_path : Text)
    → sys.config_opens ≡ true
    → (install sys fs exec_path dest_cfg).ok ≡ true
    → (install sys fs exec_path dest_cfg).files dest_cfg ≡ some (or_default (fs dest_cfg))
unfolding install
install-config sys fs exec_path opens ok = elim (Bool-cases sys.directories_made) [
  | inr d ↦ let q : false ≡ true = (rw d at ok) in cc
  | inl d ↦ go (copy_file fs exec_path binary_install_path sys.binary_fault) refl d
]
  where
    go :
        (c : Copied)
        → copy_file fs exec_path binary_install_path sys.binary_fault ≡ c
        → sys.directories_made ≡ true
        → (install sys fs exec_path dest_cfg).files dest_cfg ≡ some (or_default (fs dest_cfg))
    go (copied fs₁) e d = copied-install-config sys fs fs₁ exec_path opens e d ok
    go (refused what fs') e d = let q : false ≡ true = (rw (e, install) at (rw d at ok)) in cc
