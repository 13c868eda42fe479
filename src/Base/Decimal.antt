-- ===== src/Base/Decimal.antt =====
-- `std::to_string` of an integer: its decimal digits.
use Prim.Native.Nat.{ℕ, zero, suc, ◌+◌, ◌/◌, ◌%◌}
use mathlib.Core.List.{[], ◌∷◌, ◌++◌}
use orbis_agent_desktop.Base.Bytes.{Text}
use orbis_agent_desktop.Base.Tests.{ltb, if◌then◌else◌}
use orbis_agent_desktop.Base.Int.{ℤ, pos, negsuc}

-- The digits of a number, most significant first; the number itself is fuel enough.
unfoldable pub digits_of : ℕ → ℕ → Text
digits_of zero n = (48 + n % 10) ∷ []
digits_of (suc fuel) n =
    let rest = digits_of fuel (n / 10) in
    if ltb n 10 then (48 + n) ∷ [] else rest ++ (48 + n % 10) ∷ []

unfoldable pub nat_to_text : ℕ → Text
unfolding digits_of
nat_to_text n = digits_of n n

unfoldable pub to_text : ℤ → Text
unfolding nat_to_text
to_text (pos n) = nat_to_text n
to_text (negsuc n) = b'-' ∷ nat_to_text (suc n)
