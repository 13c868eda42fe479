-- ===== src/Installer/Windows/Kept.antt =====
-- What an installation on Windows keeps, and what it has done where it succeeds.
use orbis_agent_desktop.Base.{
  ◌≡◌, ◌≢◌, refl, ◌∙◌, ap, true, false, Option, none, some, Text, text, text_eq, apart, ◌⊎◌, inl,
  inr, ℕ, ◌==◌, ==_iff, Bool-cases, Option-cases, arith,
}
use orbis_agent_desktop.Base.Files.{
  Files, Fault, Copied, copied, refused, write, copy_file, write_self, copy_file_copied,
}
use orbis_agent_desktop.Installer.Copies.{
  place_config, place_config-elsewhere, place_config-Keeps, Keeps, Keeps-then, write-Keeps,
  refused-Keeps,
}
use orbis_agent_desktop.Installer.Windows.{
  Handle, service, null, Scm, Ran, dest_bin, dest_cfg, error_service_exists,
  error_service_already_running, configure, create_service, register, install,
}

-- No path but these two is written.
abbrev pub Elsewhere : Text → Type 0
Elsewhere p = (p ≢ dest_bin) × (p ≢ dest_cfg)

cfg-bin : dest_cfg ≢ dest_bin
unfolding text_eq text
cfg-bin = apart dest_cfg dest_bin refl

bin-cfg : dest_bin ≢ dest_cfg
unfolding text_eq text
bin-cfg = apart dest_bin dest_cfg refl

-- The manager made the service, or gave the one that was there the image path, and the service was
-- started or ran already.
abbrev pub Registered : Scm → Type 0
Registered scm =
    ((scm.create_error ≡ none)
      ⊎ ((scm.create_error ≡ some error_service_exists) × (scm.service_opens ≡ true)))
    × ((scm.start_error service ≡ none)
        ⊎ (scm.start_error service ≡ some error_service_already_running))

-- `StartService` with an invalid handle fails with `ERROR_INVALID_HANDLE`.
abbrev pub RefusesNull : Scm → Type 0
RefusesNull scm = scm.start_error null ≡ some 6

Started : Scm → Handle → Type 0
Started scm h =
    (scm.start_error h ≡ none) ⊎ (scm.start_error h ≡ some error_service_already_running)

configure-Started : (scm : Scm) (h : Handle) → (configure scm h).0 ≡ true → Started scm h
unfolding configure Started
configure-Started scm h ok = elim (Option-cases (scm.start_error h)) [
  | inl e ↦ inl e
  | inr (code, e) ↦
      let q : (code == error_service_already_running) ≡ true = (rw (e, configure) at ok) in
      inr (e ∙ ap some ((==_iff _ _).0 q))
]

null-Started : (scm : Scm) → RefusesNull scm → ¬ Started scm null
unfolding Started
null-Started scm refuses (inl e) = cc
null-Started scm refuses (inr e) = ground arith

create_service-Registered :
    (scm : Scm) (error : Option ℕ)
    → scm.create_error ≡ error
    → RefusesNull scm
    → (create_service scm error).0 ≡ true
    → Registered scm
unfolding create_service Started configure
create_service-Registered scm none e refuses ok = (inl e, configure-Started scm service ok)
create_service-Registered scm (some code) e refuses ok =
    elim (Bool-cases (code == error_service_exists)) [
      | inr other ↦ let q : false ≡ true = (rw other at ok) in cc
      | inl there ↦
          let known : scm.create_error ≡ some error_service_exists =
            e ∙ ap some ((==_iff _ _).0 there) in
          elim (Bool-cases scm.service_opens) [
            | inl s ↦ (inr (known, s), configure-Started scm service (rw s at (rw there at ok)))
            | inr s ↦
                absurd
                  (null-Started scm refuses (configure-Started scm null (rw s at (rw there at ok))))
          ]
    ]

register-Registered : (scm : Scm) → RefusesNull scm → (register scm).0 ≡ true → Registered scm
unfolding register
register-Registered scm refuses ok = elim (Bool-cases scm.manager_opens) [
  | inl m ↦ create_service-Registered scm scm.create_error refl refuses (rw m at ok)
  | inr m ↦ let q : false ≡ true = (rw m at ok) in cc
]

-- What a successful run has done.
abbrev pub Done : Scm → Files → Text → Ran → Type 0
Done scm fs exec_path r =
    (content : Text) × (fs exec_path ≡ some content)
    × (r.files dest_bin ≡ some content)
    × Registered scm

-- Every run of the installer for Windows writes to no path but those of the binary and the configuration,
-- and keeps a configuration that is in its place. Where a start with an invalid handle fails, a run
-- that succeeds has put the program at the path of the binary, and the manager has made the service or
-- opened the one that exists, and has started it or found it running.
pub install-Registered :
    (scm : Scm) (fs : Files) (exec_path config_path : Text)
    (binary_fault config_fault : Option Fault)
    → RefusesNull scm
    → let r = install scm fs exec_path config_path binary_fault config_fault in
      Keeps Elsewhere dest_cfg fs r.files × (r.ok ≡ true → Done scm fs exec_path r)
unfolding install
install-Registered scm fs exec_path config_path binary_fault config_fault refuses =
    go (copy_file fs exec_path dest_bin binary_fault) refl
  where
    go :
        (c : Copied)
        → copy_file fs exec_path dest_bin binary_fault ≡ c
        → let r = install scm fs exec_path config_path binary_fault config_fault in
          Keeps Elsewhere dest_cfg fs r.files × (r.ok ≡ true → Done scm fs exec_path r)
    go (refused what fs') e =
        rw (e, install)
          (
            refused-Keeps Elsewhere dest_cfg fs fs' exec_path dest_bin what binary_fault e
                (λ p h. h.0) cfg-bin,
            λ h. cc,
          )
    go (copied fs₁) e =
        let (content, f, g) = copy_file_copied fs fs₁ exec_path dest_bin binary_fault e in
        let fs₂ = place_config fs₁ dest_cfg config_path config_fault in
        let k : Keeps Elsewhere dest_cfg fs fs₂ = rw g (
          Keeps-then Elsewhere dest_cfg fs (write fs dest_bin content) _
            (write-Keeps Elsewhere dest_cfg fs dest_bin content (λ p h. h.0) cfg-bin)
            (place_config-Keeps dest_cfg Elsewhere (λ p h. h.1) (write fs dest_bin content)
              config_path config_fault)) in
        let binary : fs₂ dest_bin ≡ some content =
          place_config-elsewhere dest_cfg fs₁ config_path dest_bin config_fault bin-cfg
          ∙ (rw g (write_self fs dest_bin content)) in
        rw (e, install) (k, λ ok. (content, f, binary, register-Registered scm refuses ok))
