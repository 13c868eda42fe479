-- ===== src/Base/Finite.antt =====
-- Statements about all small numbers, decided by running a test.
use Prim.Native.Nat.{ℕ, zero, suc, ◌<◌}
use mathlib.Core.Path.{◌≡◌}
use mathlib.Core.Bool.{Bool, true, ◌&&◌}
use native.Mathlib.Omega.{arith}

module _ (test : ℕ → Bool) where
  unfoldable pub holds_below : ℕ → Bool
  holds_below zero = true
  holds_below (suc bound) = holds_below bound && test bound

  -- What holds below a bound holds at each number there.
  pub instance_of : (bound k : ℕ) → holds_below bound ≡ true → k < bound → test k ≡ true
  unfolding holds_below
  instance_of zero k run below = absurd (omega arith)
  instance_of (suc bound) k run below = ground (arith, instance_of bound k)
