-- ===== src/Base/Hex.antt =====
-- A digest as hexadecimal text: two lower-case digits a byte (`std::hex`, `setw(2)`, `setfill('0')`).
use Prim.Native.Nat.{ℕ, ◌+◌, ◌/◌, ◌%◌}
use mathlib.Core.List.{List, [], ◌∷◌}
use orbis_agent_desktop.Base.Bytes.{Text}
use orbis_agent_desktop.Base.Tests.{ltb, if◌then◌else◌}

unfoldable pub hex_digit : ℕ → ℕ
hex_digit n = if ltb n 10 then 48 + n else 87 + n

unfoldable pub to_hex : List ℕ → Text
unfolding hex_digit
to_hex [] = []
to_hex (b ∷ bs) = hex_digit (b / 16) ∷ hex_digit (b % 16) ∷ to_hex bs
