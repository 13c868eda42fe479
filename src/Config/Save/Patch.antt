-- ===== src/Config/Save/Patch.antt =====
-- The places where the patching of the configuration changes nothing.
use orbis_agent_desktop.Base.{
  ℕ, ◌≡◌, refl, ap, false, [], ◌∷◌, ◌++◌, Option, none, some, Text, ◌==◌, All, Bool-cases, arith,
  length, length-append, ◌-◌, inl, inr,
}
use orbis_agent_desktop.Base.Stoi.{skip_spaces, is_space}
use orbis_agent_desktop.Config.Save.{after_prefix, after_equals, after_match, replace_from}

abbrev pub Without : ℕ → Text → Type 0
Without x s = All (λ c. (c == x) ≡ false) s

-- A value in quotes without `=` ends before any assignment in it.
after_equals-quoted :
    (u r : Text) → Without b'=' u → after_equals (skip_spaces (u ++ b'"' ∷ r)) ≡ none
unfolding after_equals skip_spaces
after_equals-quoted [] r h = refl
after_equals-quoted (c ∷ u) r h = elim (Bool-cases (is_space c)) [
  | inl e ↦ rw e (after_equals-quoted u r h.1)
  | inr e ↦ rw e (rw h.0 refl)
]

-- Past the key there is none either.
after_match-quoted :
    (key u r : Text)
    → Without b'"' key
    → Without b'=' u
    → elim (after_prefix key (u ++ b'"' ∷ r)) as (λ x. Option Text) [
      | none ↦ none
      | some rest ↦ after_equals (skip_spaces rest)
    ]
      ≡ none
unfolding after_prefix
after_match-quoted [] u r q h = after_equals-quoted u r h
after_match-quoted (x ∷ key) [] r q h = rw q.0 refl
after_match-quoted (x ∷ key) (c ∷ u) r q h = elim (Bool-cases (x == c)) [
  | inl e ↦ rw e (after_match-quoted key u r q.1 h.1)
  | inr e ↦ rw e refl
]

after_match-none :
    (key u r : Text) → Without b'"' key → Without b'=' u → after_match key (u ++ b'"' ∷ r) ≡ none
unfolding after_match
after_match-none key u r q h = after_match-quoted key u r q h

module _ (format : Text → Text) (key : Text) where
  -- A value in quotes that has no `=` is copied.
  pub replace_from-quoted :
      (u r : Text)
      → Without b'"' key
      → Without b'=' u
      → replace_from format key 0 (u ++ b'"' ∷ r) ≡ u ++ replace_from format key 0 (b'"' ∷ r)
  unfolding replace_from
  replace_from-quoted [] r q h = refl
  replace_from-quoted (c ∷ u) r q h =
      rw (after_match-none key (c ∷ u) r q h, replace_from)
        (ap (◌∷◌ c) (replace_from-quoted u r q h.1))

  -- Within the rest of a match nothing is written.
  replace_from-skip :
      (m r : Text) → replace_from format key (length m) (m ++ r) ≡ replace_from format key 0 r
  unfolding replace_from
  replace_from-skip [] r = refl
  replace_from-skip (c ∷ m) r = replace_from-skip m r

  -- A match is replaced.
  pub replace_from-match :
      (c : ℕ) (m r : Text)
      → after_match key (c ∷ (m ++ r)) ≡ some r
      → replace_from format key 0 (c ∷ (m ++ r))
        ≡ format (c ∷ (m ++ r)) ++ replace_from format key 0 r
  unfolding replace_from
  replace_from-match c m r e =
      let left : length (m ++ r) - length r ≡ length m = omega (arith, length-append m r) in
      rw (e, replace_from) (ap (λ t. format (c ∷ (m ++ r)) ++ t) (rw left (replace_from-skip m r)))
