-- ===== src/Uninstall/Protection.antt =====
-- The key that was saved, and who may uninstall.
use orbis_agent_desktop.Base.{
  ℕ, ◌/◌, ◌%◌, ◌<◌, ◌≡◌, ◌≢◌, ◌⊎◌, inl, inr, refl, ap, ◌↔◌, Bool, true, false, not, ◌||◌,
  Bool-cases, List, [], ◌∷◌, ◌++◌, Text, text_eq, text_eq_iff, is_empty, ◌==◌, All, arith,
}
use orbis_agent_desktop.Base.Files.{Files, write_self, write_ne}
use orbis_agent_desktop.Base.Hex.{to_hex, hex_digit}
use orbis_agent_desktop.Uninstall.{
  uninstall_key_path, first_line, sha256hex, save_uninstall_key, verify_uninstall_code, matches,
  uninstall, install_key,
}

abbrev pub IsByte : ℕ → Type 0
IsByte b = b < 256

hex_digit-injective : (m n : ℕ) → m < 16 → n < 16 → hex_digit m ≡ hex_digit n → m ≡ n
unfolding hex_digit
hex_digit-injective m n p q h = ground arith

hex_digit-ne : (n : ℕ) → (hex_digit n == 10) ≡ false
unfolding hex_digit
hex_digit-ne n = ground arith

to_hex-injective :
    (xs ys : List ℕ) → All IsByte xs → All IsByte ys → to_hex xs ≡ to_hex ys → xs ≡ ys
unfolding to_hex
to_hex-injective [] [] p q h = refl
to_hex-injective [] (y ∷ ys) p q h = absurd (ground arith)
to_hex-injective (x ∷ xs) [] p q h = absurd (ground arith)
to_hex-injective (x ∷ xs) (y ∷ ys) p q h =
    let high : hex_digit (x / 16) ≡ hex_digit (y / 16) = ground (arith, h) in
    let low : hex_digit (x % 16) ≡ hex_digit (y % 16) = ground (arith, h) in
    let rest : to_hex xs ≡ to_hex ys = ground (arith, h) in
    let high' =
      hex_digit-injective (x / 16) (y / 16) (omega (arith, p.0)) (omega (arith, q.0)) high in
    let low' = hex_digit-injective (x % 16) (y % 16) (omega arith) (omega arith) low in
    let same : x ≡ y = omega (arith, high', low') in cc (same, to_hex-injective xs ys p.1 q.1 rest)

first_line-to_hex : (xs : List ℕ) (s : Text) → first_line (to_hex xs ++ 10 ∷ s) ≡ to_hex xs
unfolding first_line to_hex
first_line-to_hex [] s = refl
first_line-to_hex (x ∷ xs) s =
    rw (hex_digit-ne (x / 16)) (rw (hex_digit-ne (x % 16)) (rw (first_line-to_hex xs s) refl))

-- What is documented of SHA-256: a digest is not empty, and of bytes.
pub record DigestLaws (sha256 : Text → List ℕ) : Type 0 where
  pub not_empty : (s : Text) → is_empty (to_hex (sha256 s)) ≡ false
  pub digest_bytes : (s : Text) → All IsByte (sha256 s)

-- The key goes to its own path.
pub install_key-elsewhere :
    (sha256 : Text → List ℕ) (fs : Files) (can_write : Bool) (code p : Text)
    → p ≢ uninstall_key_path
    → (install_key sha256 fs can_write code).0 p ≡ fs p
unfolding install_key save_uninstall_key
install_key-elsewhere sha256 fs true code p h = write_ne fs uninstall_key_path p _ h
install_key-elsewhere sha256 fs false code p h = refl

module _ (sha256 : Text → List ℕ) (laws : DigestLaws sha256) where
  text_eq-sha256hex :
      (code tried : Text)
      → (text_eq (sha256hex sha256 tried) (sha256hex sha256 code) ≡ true)
        ↔ (sha256 tried ≡ sha256 code)
  unfolding sha256hex
  text_eq-sha256hex code tried = (
    λ e.
        to_hex-injective (sha256 tried) (sha256 code) (laws.digest_bytes tried)
          (laws.digest_bytes code) ((text_eq_iff _ _).0 e),
    λ e. (text_eq_iff _ _).1 (ap to_hex e),
  )

  verify-written :
      (fs : Files) (code tried : Text)
      → verify_uninstall_code sha256 (save_uninstall_key sha256 fs true code).0 tried
        ≡ text_eq (sha256hex sha256 tried) (sha256hex sha256 code)
  unfolding verify_uninstall_code save_uninstall_key matches sha256hex
  verify-written fs code tried =
      rw (write_self fs uninstall_key_path (to_hex (sha256 code) ++ 10 ∷ []), verify_uninstall_code)
        (rw (first_line-to_hex (sha256 code) []) (rw (laws.not_empty code) refl))

  -- A code that was saved is accepted, and another one only if it has the same digest, where a
  -- digest is of bytes and not empty.
  verify-save :
      (fs : Files) (code tried : Text)
      → (verify_uninstall_code sha256 (save_uninstall_key sha256 fs true code).0 tried ≡ true)
        ↔ (sha256 tried ≡ sha256 code)
  verify-save fs code tried = rw (verify-written fs code tried) (text_eq-sha256hex code tried)

  refused_code :
      (fs : Files) (code tried : Text)
      → (tried ≡ []) ⊎ (sha256 tried ≢ sha256 code)
      → (is_empty tried
          || not (verify_uninstall_code sha256 (save_uninstall_key sha256 fs true code).0 tried))
        ≡ true
  refused_code fs code tried (inl e) = rw e refl
  refused_code fs code tried (inr ne) =
      elim (Bool-cases
        (verify_uninstall_code sha256 (save_uninstall_key sha256 fs true code).0 tried)) [
          | inl v ↦ absurd (ne ((verify-save fs code tried).0 v))
          | inr v ↦ ground (arith, v)
        ]

  -- Where a key was saved, a run with another code, one of another digest or none, ends with exit
  -- code 1, does not call the installer and leaves the files as they were, where a digest is of
  -- bytes and not empty.
  pub uninstall_protected :
      (fs : Files) (code tried : Text) (installer_ok : Bool)
      → (tried ≡ []) ⊎ (sha256 tried ≢ sha256 code)
      → let saved = (save_uninstall_key sha256 fs true code).0 in
        uninstall sha256 saved tried installer_ok
        ≡ record { code = 1; files = saved; uninstalled = false }
  unfolding uninstall save_uninstall_key
  uninstall_protected fs code tried installer_ok w =
      rw (write_self fs uninstall_key_path (sha256hex sha256 code ++ 10 ∷ []), uninstall)
        (rw (refused_code fs code tried w) refl)
