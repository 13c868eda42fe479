-- ===== src/Base/Stoi.antt =====
-- `std::stoi`: it skips white space, reads a sign and digits, and ignores what follows; `none` is an
-- exception, for no digits or a value that is no `int`.
use Prim.Native.Nat.{ℕ, ◌+◌, ◌-◌, ◌*◌}
use mathlib.Core.Bool.{Bool, ◌&&◌, ◌||◌}
use mathlib.Core.List.{[], ◌∷◌}
use mathlib.Core.Option.{Option, none, some}
use orbis_agent_desktop.Base.Bytes.{Text}
use orbis_agent_desktop.Base.Tests.{leb, ltb, ◌==◌, if◌then◌else◌}
use orbis_agent_desktop.Base.Int.{ℤ, pos, negsuc}

abbrev pub is_digit : ℕ → Bool
is_digit c = leb 48 c && leb c 57

abbrev pub is_space : ℕ → Bool
is_space c = c == 32 || (leb 9 c && leb c 13)

unfoldable pub skip_spaces : Text → Text
skip_spaces [] = []
skip_spaces (c ∷ s) = let rest = skip_spaces s in if is_space c then rest else c ∷ s

-- The value of the digits that the text starts with.
unfoldable digits : ℕ → Text → ℕ
digits acc [] = acc
digits acc (c ∷ s) = let rest = digits (acc * 10 + (c - 48)) s in if is_digit c then rest else acc

unfoldable magnitude : Text → Option ℕ
unfolding digits
magnitude [] = none
magnitude (c ∷ s) = if is_digit c then some (digits 0 (c ∷ s)) else none

unfoldable positive : Option ℕ → Option ℤ
positive none = none
positive (some n) = if ltb n 2147483648 then some (pos n) else none

unfoldable negative : Option ℕ → Option ℤ
negative none = none
negative (some n) =
    if leb n 2147483648 then some (if n == 0 then pos 0 else negsuc (n - 1)) else none

unfoldable signed : Text → Option ℤ
unfolding magnitude positive negative
signed [] = none
signed (c ∷ s) =
    if c == b'-'
    then negative (magnitude s)
    else if c == b'+'
    then positive (magnitude s)
    else positive (magnitude (c ∷ s))

unfoldable pub stoi : Text → Option ℤ
unfolding signed skip_spaces
stoi s = signed (skip_spaces s)
