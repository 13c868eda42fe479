-- ===== src/Installer/Copies.antt =====
-- The copies that the installers of src/platform make, and what they keep.
use orbis_agent_desktop.Base.{
  ◌≡◌, ◌≢◌, refl, ◌∙◌, Option, none, some, Text, is_empty, if◌then◌else◌, Bool-cases, Option-cases,
  inl, inr,
}
use orbis_agent_desktop.Base.Files.{
  Files, Fault, spoil_ne, copy_file-refused, Copied, copied, refused, write, copy_file, write_ne,
  copy_content,
}

-- The files after a copy whose error is ignored.
unfoldable pub after_copy : Files → Copied → Files
after_copy fs (copied fs') = fs'
after_copy fs (refused what fs') = fs'

-- The configuration is copied where none is in its place and there is one to copy.
unfoldable pub place_config : Files → Text → Text → Option Fault → Files
unfolding after_copy
place_config fs dest_cfg config_path fault = elim (fs dest_cfg) [
  | some content ↦ fs
  | none ↦ elim (fs config_path) [
    | none ↦ fs
    | some content ↦
        if is_empty config_path then fs else after_copy fs (copy_file fs config_path dest_cfg fault)
  ]
]

-- A copy to another path, its error ignored.
pub after_copy-elsewhere :
    (fs : Files) (from dest_cfg p : Text) (fault : Option Fault)
    → p ≢ dest_cfg
    → after_copy fs (copy_file fs from dest_cfg fault) p ≡ fs p
unfolding after_copy copy_file copy_content
after_copy-elsewhere fs from dest_cfg p (some fault) h = spoil_ne fs dest_cfg p fault h
after_copy-elsewhere fs from dest_cfg p none h = elim (Option-cases (fs from)) [
  | inl e ↦ rw e refl
  | inr (content, e) ↦ rw e (write_ne fs dest_cfg p content h)
]

-- From one store of files to the next, the paths of which `Elsewhere` holds keep what they have, and so
-- does a configuration that is in its place.
module _ (Elsewhere : Text → Type 0) (dest_cfg : Text) where
  abbrev pub Keeps : Files → Files → Type 0
  Keeps fs fs' =
      ((p : Text) → Elsewhere p → fs' p ≡ fs p)
      × ((content : Text) → fs dest_cfg ≡ some content → fs' dest_cfg ≡ some content)

  pub Keeps-same : (fs : Files) → Keeps fs fs
  Keeps-same fs = ((λ p h. refl), (λ content e. e))

  pub Keeps-then : (fs₁ fs₂ fs₃ : Files) → Keeps fs₁ fs₂ → Keeps fs₂ fs₃ → Keeps fs₁ fs₃
  Keeps-then fs₁ fs₂ fs₃ a b =
      ((λ p h. b.0 p h ∙ a.0 p h), (λ content e. b.1 content (a.1 content e)))

  pub write-Keeps :
      (fs : Files) (path content : Text)
      → ((p : Text) → Elsewhere p → p ≢ path)
      → dest_cfg ≢ path
      → Keeps fs (write fs path content)
  write-Keeps fs path content h k = (
    (λ p e. write_ne fs path p content (h p e)),
    (λ old e. write_ne fs path dest_cfg content k ∙ e),
  )

  -- A copy to a path outside that fails.
  pub refused-Keeps :
      (fs fs' : Files) (from to what : Text) (fault : Option Fault)
      → copy_file fs from to fault ≡ refused what fs'
      → ((p : Text) → Elsewhere p → p ≢ to)
      → dest_cfg ≢ to
      → Keeps fs fs'
  refused-Keeps fs fs' from to what fault e h k = (
    (λ p q. copy_file-refused fs fs' from to what p fault e (h p q)),
    (λ content q. copy_file-refused fs fs' from to what dest_cfg fault e k ∙ q),
  )

module _ (dest_cfg : Text) where
  pub place_config-elsewhere :
      (fs : Files) (config_path p : Text) (fault : Option Fault)
      → p ≢ dest_cfg
      → place_config fs dest_cfg config_path fault p ≡ fs p
  unfolding place_config
  place_config-elsewhere fs config_path p fault h = elim (Option-cases (fs dest_cfg)) [
    | inr (content, e) ↦ rw (e, place_config) refl
    | inl e ↦ elim (Option-cases (fs config_path)) [
      | inl f ↦ rw (e, place_config) (rw (f, place_config) refl)
      | inr (content, f) ↦
          rw (e, place_config)
            (rw (f, place_config)
              (elim (Bool-cases (is_empty config_path)) [
                | inl g ↦ rw g refl
                | inr g ↦ rw g (after_copy-elsewhere fs config_path dest_cfg p fault h)
              ]))
    ]
  ]

  place_config-kept :
      (fs : Files) (config_path content : Text) (fault : Option Fault)
      → fs dest_cfg ≡ some content
      → place_config fs dest_cfg config_path fault ≡ fs
  unfolding place_config
  place_config-kept fs config_path content fault e = rw (e, place_config) refl

  pub place_config-Keeps :
      (Elsewhere : Text → Type 0)
      → ((p : Text) → Elsewhere p → p ≢ dest_cfg)
      → (fs : Files) (config_path : Text) (fault : Option Fault)
      → Keeps Elsewhere dest_cfg fs (place_config fs dest_cfg config_path fault)
  place_config-Keeps Elsewhere away fs config_path fault = (
    (λ p h. place_config-elsewhere fs config_path p fault (away p h)),
    (λ content e. rw (place_config-kept fs config_path content fault e) e),
  )
