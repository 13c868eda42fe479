-- ===== src/Config/Base64.antt =====
-- `b64Encode` and `b64Decode` of src/config/ConfigManager.cpp. A character is its code, and a byte a
-- number below 256.
pub mod RoundTrip
use orbis_agent_desktop.Base.{
  ℕ, zero, suc, ◌+◌, ◌-◌, ◌*◌, ◌/◌, ◌%◌, ◌^◌, ◌≡◌, refl, Bool, true, false, ◌||◌, List, [], ◌∷◌,
  ◌++◌, Option, none, some, Text, text, leb, ltb, ◌==◌, if◌then◌else◌, get_elem?,
}
use orbis_agent_desktop.Base.Int.{ℤ, pos, negsuc, ◌+ℤ◌, is_negative, pos_part}
use Prim.Native.Nat.{bit_and, bit_or}

unfoldable pub tbl : Text
unfolding text
tbl = text "ABCDEFGHIJKLMNOPQRSTUVWXYZabcdefghijklmnopqrstuvwxyz0123456789+/"

-- `tbl[i]`; after the last character stands the NUL.
char_at : ℕ → ℕ
unfolding tbl
char_at i = elim (get_elem? tbl i) [ none ↦ 0 | some c ↦ c ]

-- The four characters of one turn of the loop; the tests are `i + 1 < size` and `i + 2 < size`.
encode_block : ℕ → ℕ → ℕ → Bool → Bool → Text
encode_block b0 b1 b2 has1 has2 =
    char_at (b0 / 4)
    ∷ char_at (bit_or (bit_and b0 3 * 16) (b1 / 16))
    ∷ (if has1 then char_at (bit_or (bit_and b1 15 * 4) (b2 / 64)) else b'=')
    ∷ (if has2 then char_at (bit_and b2 63) else b'=')
    ∷ []

pub b64_encode : List ℕ → Text
b64_encode [] = []
b64_encode (b0 ∷ []) = encode_block b0 0 0 false false
b64_encode (b0 ∷ b1 ∷ []) = encode_block b0 b1 0 true false
b64_encode (b0 ∷ b1 ∷ b2 ∷ rest) = encode_block b0 b1 b2 true true ++ b64_encode rest

abbrev invalid : ℤ
invalid = negsuc 0

-- `lookup`, as far as the source writes it out: -1 where a character is no digit.
lookup_table : List ℤ
lookup_table =
    invalid
    ∷ invalid
    ∷ invalid
    ∷ invalid
    ∷ invalid
    ∷ invalid
    ∷ invalid
    ∷ invalid
    ∷ invalid
    ∷ invalid
    ∷ invalid
    ∷ invalid
    ∷ invalid
    ∷ invalid
    ∷ invalid
    ∷ invalid
    ∷ invalid
    ∷ invalid
    ∷ invalid
    ∷ invalid
    ∷ invalid
    ∷ invalid
    ∷ invalid
    ∷ invalid
    ∷ invalid
    ∷ invalid
    ∷ invalid
    ∷ invalid
    ∷ invalid
    ∷ invalid
    ∷ invalid
    ∷ invalid
    ∷ invalid
    ∷ invalid
    ∷ invalid
    ∷ invalid
    ∷ invalid
    ∷ invalid
    ∷ invalid
    ∷ invalid
    ∷ invalid
    ∷ invalid
    ∷ invalid
    ∷ pos 62
    ∷ invalid
    ∷ invalid
    ∷ invalid
    ∷ pos 63
    ∷ pos 52
    ∷ pos 53
    ∷ pos 54
    ∷ pos 55
    ∷ pos 56
    ∷ pos 57
    ∷ pos 58
    ∷ pos 59
    ∷ pos 60
    ∷ pos 61
    ∷ invalid
    ∷ invalid
    ∷ invalid
    ∷ invalid
    ∷ invalid
    ∷ invalid
    ∷ invalid
    ∷ pos 0
    ∷ pos 1
    ∷ pos 2
    ∷ pos 3
    ∷ pos 4
    ∷ pos 5
    ∷ pos 6
    ∷ pos 7
    ∷ pos 8
    ∷ pos 9
    ∷ pos 10
    ∷ pos 11
    ∷ pos 12
    ∷ pos 13
    ∷ pos 14
    ∷ pos 15
    ∷ pos 16
    ∷ pos 17
    ∷ pos 18
    ∷ pos 19
    ∷ pos 20
    ∷ pos 21
    ∷ pos 22
    ∷ pos 23
    ∷ pos 24
    ∷ pos 25
    ∷ invalid
    ∷ invalid
    ∷ invalid
    ∷ invalid
    ∷ invalid
    ∷ invalid
    ∷ pos 26
    ∷ pos 27
    ∷ pos 28
    ∷ pos 29
    ∷ pos 30
    ∷ pos 31
    ∷ pos 32
    ∷ pos 33
    ∷ pos 34
    ∷ pos 35
    ∷ pos 36
    ∷ pos 37
    ∷ pos 38
    ∷ pos 39
    ∷ pos 40
    ∷ pos 41
    ∷ pos 42
    ∷ pos 43
    ∷ pos 44
    ∷ pos 45
    ∷ pos 46
    ∷ pos 47
    ∷ pos 48
    ∷ pos 49
    ∷ pos 50
    ∷ pos 51
    ∷ invalid
    ∷ invalid
    ∷ invalid
    ∷ invalid
    ∷ invalid
    ∷ []

lookup : ℕ → ℤ
unfolding lookup_table
lookup c = elim (get_elem? lookup_table c) [ none ↦ invalid | some v ↦ v ]

-- The loop over the characters. `val` is the bit pattern of the 32-bit `int`, which wraps;
-- `bits` is at most 4 where it shifts, so the byte lies within the pattern.
decode_loop : Text → ℕ → ℤ → List ℕ
decode_loop [] val bits = []
decode_loop (c ∷ cs) val bits =
    let digit = lookup c in
    let val' = (val * 2 ^ 6 + pos_part digit) % 2 ^ 32 in
    let bits' = bits +ℤ pos 6 in
    let rest = decode_loop cs val' (if is_negative bits' then bits' else bits' +ℤ negsuc 7) in
    if leb 128 c || is_negative digit
    then []
    else if is_negative bits'
    then rest
    else (val' / 2 ^ pos_part bits') % 2 ^ 8 ∷ rest

pub b64_decode : Text → List ℕ
unfolding decode_loop
b64_decode input = decode_loop input 0 (negsuc 7)
