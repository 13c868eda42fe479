-- ===== src/Installer/Windows/Handles.antt =====
-- The handles of the service control manager that the Windows installer holds.
use orbis_agent_desktop.Base.{
  ℕ, ◌≡◌, refl, Bool, true, false, List, [], ◌∷◌, Option, none, some, if◌then◌else◌, ◌==◌, arith,
  Bool-cases, inl, inr, ◌||◌,
}
use orbis_agent_desktop.Installer.Windows.{
  Handle, manager, service, null, Call, opens, creates, changes_config, sets_description,
  sets_recovery, starts, stops, deletes, queries, closes, Scm, error_service_exists, create_service,
  register, start, stop, is_running, uninstall,
}

same : Handle → Handle → Bool
same manager manager = true
same service service = true
same null null = true
same _ _ = false

holds : List Handle → Handle → Bool
holds [] h = false
holds (k ∷ ks) h = same k h || holds ks h

released : List Handle → Handle → Option (List Handle)
released [] h = none
released (k ∷ ks) h = if same k h then some ks else none

-- The handles held after a call, the last one opened first; `none` where the call uses a handle that is
-- not held, or closes another than the last.
after_call : List Handle → Call → Option (List Handle)
unfolding same holds released
after_call hs (opens h true) = some (h ∷ hs)
after_call hs (opens h false) = some hs
after_call hs (creates image none) = some (service ∷ hs)
after_call hs (creates image (some e)) = some hs
after_call hs (changes_config h image) = if holds hs h then some hs else none
after_call hs (sets_description h) = if holds hs h then some hs else none
after_call hs (sets_recovery h) = if holds hs h then some hs else none
after_call hs (starts h) = if holds hs h then some hs else none
after_call hs (stops h) = if holds hs h then some hs else none
after_call hs (deletes h) = if holds hs h then some hs else none
after_call hs (queries h) = if holds hs h then some hs else none
after_call hs (closes h) = released hs h

pub held : List Handle → List Call → Option (List Handle)
unfolding after_call
held hs [] = some hs
held hs (c ∷ cs) = elim (after_call hs c) [ none ↦ none | some hs' ↦ held hs' cs ]

-- Every handle is opened before it is used and closed once, in the reverse order.
abbrev pub Released : List Call → Type 0
Released calls = held [] calls ≡ some []

-- With this answer the code goes on without a handle of the service.
abbrev pub LosesService : Scm → Type 0
LosesService scm = (scm.create_error ≡ some error_service_exists) × (scm.service_opens ≡ false)

module _ (scm : Scm) where
  create_service-held :
      (error : Option ℕ)
      → (error ≡ some error_service_exists → scm.service_opens ≡ true)
      → held (manager ∷ []) (create_service scm error).1 ≡ some []
  unfolding create_service held
  create_service-held none h = refl
  create_service-held (some e) h = elim (Bool-cases (e == error_service_exists)) [
    | inl same_error ↦ let there = h (ground (arith, same_error)) in rw same_error (rw there refl)
    | inr other ↦ rw other refl
  ]

  pub register-Released :
      (scm.create_error ≡ some error_service_exists → scm.service_opens ≡ true)
      → Released (register scm).1
  unfolding register held
  register-Released h = elim (Bool-cases scm.manager_opens) [
    | inl m ↦ rw m (create_service-held scm.create_error h)
    | inr m ↦ rw m refl
  ]

  on_service-Released : Released (start scm).1 × Released (stop scm).1 × Released (is_running scm).1
  unfolding start stop is_running held
  on_service-Released = elim (Bool-cases scm.manager_opens) [
    | inl m ↦ elim (Bool-cases scm.service_opens) [
      | inl s ↦ simp (m, s) (refl, refl, refl)
      | inr s ↦ simp (m, s) (refl, refl, refl)
    ]
    | inr m ↦ simp m (refl, refl, refl)
  ]

  uninstall-Released : Released (uninstall scm).1
  unfolding uninstall held
  uninstall-Released = stopped scm.manager_opens scm.service_opens refl refl
    where
      deleted :
          (a b c d : Bool)
          → scm.manager_opens ≡ a
          → scm.service_opens ≡ b
          → scm.manager_reopens ≡ c
          → scm.service_reopens ≡ d
          → Released (uninstall scm).1
      deleted true true true true p q r s = simp (p, q, r, s) refl
      deleted true true true false p q r s = simp (p, q, r, s) refl
      deleted true true false d p q r s = simp (p, q, r) refl
      deleted true false true true p q r s = simp (p, q, r, s) refl
      deleted true false true false p q r s = simp (p, q, r, s) refl
      deleted true false false d p q r s = simp (p, q, r) refl
      deleted false b true true p q r s = simp (p, r, s) refl
      deleted false b true false p q r s = simp (p, r, s) refl
      deleted false b false d p q r s = simp (p, r) refl

      stopped :
          (a b : Bool) → scm.manager_opens ≡ a → scm.service_opens ≡ b → Released (uninstall scm).1
      stopped a b p q = deleted a b scm.manager_reopens scm.service_reopens p q refl refl

-- Whatever the manager answers, the calls of every operation of the Windows installer use open handles
-- only, and close each that was opened, once and in the reverse order; an installation does so unless the
-- service exists and cannot be opened.
pub all-Released :
    (scm : Scm)
    → (scm.create_error ≡ some error_service_exists → scm.service_opens ≡ true)
    → Released (register scm).1
      × Released (start scm).1
      × Released (stop scm).1
      × Released (is_running scm).1
      × Released (uninstall scm).1
all-Released scm h =
    let (a, b, c) = on_service-Released scm in
    (register-Released scm h, a, b, c, uninstall-Released scm)

-- Where the service exists and cannot be opened, the code configures, starts and closes a null handle.
register-null :
    (scm : Scm) → scm.manager_opens ≡ true → LosesService scm → held [] (register scm).1 ≡ none
unfolding register create_service held
register-null scm m l = simp (m, l.0, l.1) refl
