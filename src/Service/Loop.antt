-- ===== src/Service/Loop.antt =====
-- `run` of src/services/LogCollector.cpp and src/services/NetworkScanner.cpp, which write the loop of
-- their threads alike. `round` is the work of a turn, of which exceptions are caught; what the flags
-- read, which other threads set, is a parameter. An interval that is negative counts as 0.
use orbis_agent_desktop.Base.{
  ℕ, zero, suc, ◌+◌, ◌*◌, ◌≤◌, ◌<◌, ◌≡◌, refl, subst, Bool, true, false, Option, none, some,
  if◌then◌else◌, arith, Bool-cases, inl, inr,
}

-- `stopped k` is `stop_requested_` before turn k, and `woken k i` is `stop_requested_ || trigger_now_`
-- before second i of the sleep after it.
module _ {W : Type 0} (round : ℕ → W → W) (interval : ℕ) (stopped : ℕ → Bool)
    (woken : ℕ → ℕ → Bool) where
  -- The seconds slept after turn k, from second i on.
  pub sleep : ℕ → ℕ → ℕ → ℕ
  sleep k zero i = 0
  sleep k (suc left) i = let later = sleep k left (i + 1) in if woken k i then 0 else later + 1

  -- The loop from turn k on, on fuel: the seconds slept, and the world.
  pub loop : ℕ → ℕ → ℕ → W → Option (ℕ × W)
  unfolding sleep
  loop zero k slept w = none
  loop (suc fuel) k slept w =
      let again = loop fuel (k + 1) (slept + sleep k interval 0) (round k w) in
      if stopped k then some (slept, w) else again

  -- The turns k, k + 1, ... in their order.
  pub rounds : ℕ → ℕ → W → W
  rounds zero k w = w
  rounds (suc m) k w = rounds m (k + 1) (round k w)

  sleep_lem : (k left i : ℕ) → sleep k left i ≤ left
  unfolding sleep
  sleep_lem k zero i = omega arith
  sleep_lem k (suc left) i = elim (Bool-cases (woken k i)) [
    | inl e ↦ rw e (omega arith)
    | inr e ↦ rw e (omega (arith, sleep_lem k left (i + 1)))
  ]

  loop-rounds :
      (m n fuel k slept : ℕ) (w : W)
      → k + m ≡ n
      → ((j : ℕ) → j < n → stopped j ≡ false)
      → stopped n ≡ true
      → m < fuel
      → (total : ℕ) × (loop fuel k slept w ≡ some (total, rounds m k w))
        × (total ≤ slept + m * interval)
  unfolding loop rounds
  loop-rounds m n zero k slept w e h s f = absurd (omega (arith, f))
  loop-rounds zero n (suc fuel) k slept w e h s f =
      let same : n ≡ k = omega (arith, e) in
      let now : stopped k ≡ true = subst (λ t. stopped t ≡ true) same s in
      rw now (slept, refl, omega arith)
  loop-rounds (suc m) n (suc fuel) k slept w e h s f =
      let (total, p, q) =
        loop-rounds m n fuel (k + 1) (slept + sleep k interval 0) (round k w) (omega (arith, e)) h s
          (omega (arith, f)) in
      rw (h k (omega (arith, e))) (total, p, omega (arith, q, sleep_lem k interval 0))

  -- Where the stop is first seen before turn n, the thread ends with fuel for more than n turns: it
  -- has done the turns before that in their order, and slept at most the interval after each.
  loop_lem :
      (n fuel : ℕ) (w : W)
      → ((j : ℕ) → j < n → stopped j ≡ false)
      → stopped n ≡ true
      → n < fuel
      → (total : ℕ) × (loop fuel 0 0 w ≡ some (total, rounds n 0 w)) × (total ≤ n * interval)
  loop_lem n fuel w h s f =
      let (total, p, q) = loop-rounds n n fuel 0 0 w (omega arith) h s f in
      (total, p, omega (arith, q))
