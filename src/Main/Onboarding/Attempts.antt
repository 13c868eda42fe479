-- ===== src/Main/Onboarding/Attempts.antt =====
-- The attempts of an agent that is not registered, up to one that the broker answers.
use orbis_agent_desktop.Base.{
  ℕ, zero, suc, ◌+◌, ◌-◌, ◌*◌, ◌≤◌, ◌≡◌, ◌≢◌, refl, ◌∙◌, Bool, true, false, List, [], ◌∷◌, ◌++◌,
  Option, none, some, Text, is_empty, inl, inr, Bool-cases, length, All, arith, lt→ltb,
}
use orbis_agent_desktop.Json.{JsonLib}
use orbis_agent_desktop.Config.{is_registered}
use orbis_agent_desktop.Config.Token.{
  Crypto, CryptoLaws, IsIv, ok, encrypt_token, is_empty-encrypt_token,
}
use orbis_agent_desktop.Mqtt.{Settings}
use orbis_agent_desktop.Main.Onboarding.{
  Ack, Attempt, Outcome, onboarded, failed, threw, State, Exit, left, receive, on_ack, attempt,
  onboarding_loop, retry_wait, slept_after, turn,
}
use orbis_agent_desktop.Main.Onboarding.Outcomes.{After, Stored, answer, attempt-After}

retry_wait_lem : (n : ℕ) (shutdown_at : ℕ → Bool) → retry_wait n shutdown_at ≤ n
unfolding retry_wait
retry_wait_lem zero shutdown_at = omega arith
retry_wait_lem (suc n) shutdown_at = ground (arith, retry_wait_lem n (λ i. shutdown_at (suc i)))

slept_after_lem :
    (retry slept : ℕ) (shutdown_at : ℕ → Bool)
    → slept ≤ 60 * (retry - 1)
    → slept_after retry slept shutdown_at ≤ 60 * retry
unfolding slept_after
slept_after_lem zero slept shutdown_at h = omega arith
slept_after_lem (suc n) slept shutdown_at h =
    rw (lt→ltb 0 (suc n) (omega arith)) (omega (arith, retry_wait_lem 60 shutdown_at))

-- The loop is left with the agent registered, after at most n more attempts, with at most a minute
-- of sleep for each retry.
abbrev pub Ends : ℕ → ℕ → Exit → Type 0
Ends retry n x =
    (r : ℕ) × (slept : ℕ) × (s : State) × (x ≡ left r slept s)
    × (is_registered s.config ≡ true)
    × (r ≤ retry + n)
    × (slept ≤ 60 * r)

-- Where `RAND_bytes` gives anything, it gives an initialization vector.
abbrev pub Random : Attempt → Type 0
Random at = (iv : List ℕ) → at.rand ≡ some iv → IsIv iv

module _ (json : JsonLib) (crypto : Crypto) (expand : Text → Text → Text) (cfg : Settings)
    (id secret : Text) where
  -- No call of an attempt throws.
  abbrev pub Calm : Attempt → Type 0
  Calm at = Random at × ((s : State) → (attempt json crypto expand at cfg s id secret).0 ≢ threw)

module _ (json : JsonLib) where
  pub receive-append :
      (topic : Text) (a : Ack) (ms ns : List (Text × Text))
      → receive json topic a (ms ++ ns) ≡ receive json topic (receive json topic a ms) ns
  unfolding receive
  receive-append topic a [] ns = refl
  receive-append topic a (m ∷ ms) ns = receive-append topic (on_ack json topic a m) ms ns

module _ (json : JsonLib) (crypto : Crypto) (expand : Text → Text → Text)
    (laws : CryptoLaws crypto) where
  module _ (cfg : Settings) (id secret : Text) (id_given : is_empty id ≡ false) where
    encrypted-given :
        (rand : Option (List ℕ)) (token encrypted : Text)
        → ((iv : List ℕ) → rand ≡ some iv → IsIv iv)
        → is_empty token ≡ false
        → encrypt_token crypto rand token ≡ ok encrypted
        → is_empty encrypted ≡ false
    unfolding encrypt_token
    encrypted-given (some iv) token encrypted random h e =
        is_empty-encrypt_token crypto laws iv token encrypted (random iv refl) e ∙ h
    encrypted-given none [] encrypted random h e = cc
    encrypted-given none (c ∷ token) encrypted random h e = cc

    Stored-registered :
        (at : Attempt) (s s' : State) (token : Text)
        → Random at
        → Stored json crypto expand at s id token s'
        → is_registered s'.config ≡ true
    unfolding is_registered
    Stored-registered at s s' token random (encrypted, content, h, e, f, p) =
        rw p (rw (id_given, encrypted-given at.rand token encrypted random h e) refl)

    turn-Ends :
        (at : Attempt) (retry slept n m : ℕ) (s : State) (token : Text) (r : Outcome × State)
        (again : Exit)
        → Random at
        → r.0 ≢ threw
        → After json crypto expand at s id token r
        → slept ≤ 60 * retry
        → (r.0 ≡ failed → Ends (retry + 1) n again × (n + 1 ≤ m))
        → Ends retry m (turn r.0 retry slept r.1 again)
    unfolding turn
    turn-Ends at retry slept n m s token (onboarded, s') again random calm after h rest =
        (retry, slept, s', refl, Stored-registered at s s' token random after, omega arith, h)
    turn-Ends at retry slept n m s token (threw, s') again random calm after h rest =
        absurd (calm refl)
    turn-Ends at retry slept n m s token (failed, s') again random calm after h rest =
        let ((r, t, u, p, q, x, y), k) = rest refl in (r, t, u, p, q, omega arith, y)

    -- After an attempt that failed the files are as they were, at the path that the configuration had.
    failed-files :
        (at : Attempt) (s : State) (token : Text) (r : Outcome × State)
        → r.0 ≡ failed
        → After json crypto expand at s id token r
        → r.1.files r.1.config.config_path ≡ s.files s.config.config_path
    failed-files at s token (failed, s') e (inl p) = rw p refl
    failed-files at s token (failed, s') e (inr (encrypted, h, f, p)) = rw p refl
    failed-files at s token (onboarded, s') e after = cc
    failed-files at s token (threw, s') e after = cc

    -- `good` is an attempt that succeeds where the file is there.
    module _ (good : Attempt) (random : Random good)
        (succeeds : (s : State) (content : Text)
          → s.files s.config.config_path ≡ some content
          → (attempt json crypto expand good cfg s id secret).0 ≡ onboarded)
        (shutdown : ℕ → Bool) (running : (n : ℕ) → shutdown n ≡ false) (after : List Attempt) where
      pub onboarding_loop-Ends :
          (before : List Attempt) (retry slept : ℕ) (s : State) (content : Text)
          → All (Calm json crypto expand cfg id secret) before
          → s.files s.config.config_path ≡ some content
          → slept ≤ 60 * (retry - 1)
          → Ends retry (length before) (
              onboarding_loop json crypto expand shutdown cfg id secret retry slept s
                (before ++ good ∷ after))
      unfolding onboarding_loop
      onboarding_loop-Ends [] retry slept s content calm f w =
          rw (running retry) (elim (Bool-cases (is_registered s.config)) [
            | inl e ↦ rw e (retry, slept, s, refl, e, omega arith, omega arith)
            | inr e ↦ rw e (
                turn-Ends good retry (slept_after retry slept good.shutdown_in_wait) 0 0 s
                  (answer json crypto expand good id).received_token
                  (attempt json crypto expand good cfg s id secret) _ random
                  (λ p. let q = succeeds s content f in cc)
                  (attempt-After json crypto expand good cfg s id secret)
                  (slept_after_lem retry slept good.shutdown_in_wait w)
                  (λ p. let q = succeeds s content f in cc))
          ])
      onboarding_loop-Ends (at ∷ before) retry slept s content (c, calm) f w =
          rw (running retry) (elim (Bool-cases (is_registered s.config)) [
            | inl e ↦ rw e (retry, slept, s, refl, e, omega arith, omega arith)
            | inr e ↦ rw e (
                let r = attempt json crypto expand at cfg s id secret in
                let z = slept_after retry slept at.shutdown_in_wait in
                let a = attempt-After json crypto expand at cfg s id secret in
                let w' = slept_after_lem retry slept at.shutdown_in_wait w in
                turn-Ends at retry z (length before) (suc (length before)) s
                  (answer json crypto expand at id).received_token r _ c.0 (c.1 s) a w'
                  (λ p. (
                    onboarding_loop-Ends before (retry + 1) z r.1 content calm
                        (failed-files at s (answer json crypto expand at id).received_token r p a
                          ∙ f)
                        (omega (arith, w')),
                    omega arith,
                  )))
          ])
