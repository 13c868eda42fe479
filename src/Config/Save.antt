-- ===== src/Config/Save.antt =====
-- `ConfigManager::save` of src/config/ConfigManager.cpp, which patches two fields of the file by a
-- regular expression, and `generateUUID`. The expansion of `$` in the text that replaces a match is
-- a parameter.
pub mod Patch
use orbis_agent_desktop.Base.{
  ℕ, zero, suc, ◌+◌, ◌-◌, ◌/◌, ◌%◌, ◌^◌, Bool, true, false, List, [], ◌∷◌, ◌++◌, Option, none, some,
  Text, text, if◌then◌else◌, ◌==◌, length,
}
use orbis_agent_desktop.Base.Files.{Files, write}
use orbis_agent_desktop.Base.Hex.{hex_digit}
use orbis_agent_desktop.Base.Stoi.{skip_spaces}
use Prim.Native.Nat.{bit_and, bit_or}

-- What is left of a text after a given start.
unfoldable pub after_prefix : Text → Text → Option Text
after_prefix [] s = some s
after_prefix (k ∷ key) [] = none
after_prefix (k ∷ key) (c ∷ s) = let rest = after_prefix key s in if k == c then rest else none

-- `[^"]*"`
unfoldable pub after_quote : Text → Option Text
after_quote [] = none
after_quote (c ∷ s) = let rest = after_quote s in if c == b'"' then some s else rest

-- `"[^"]*"`
unfoldable pub after_string : Text → Option Text
after_string [] = none
after_string (c ∷ s) = if c == b'"' then after_quote s else none

-- `=\s*"[^"]*"`
unfoldable pub after_equals : Text → Option Text
after_equals [] = none
after_equals (c ∷ s) = if c == b'=' then after_string (skip_spaces s) else none

-- What follows a match of `key\s*=\s*"[^"]*"` at the start of the text.
unfoldable pub after_match : Text → Text → Option Text
after_match key s = elim (after_prefix key s) [
  | none ↦ none
  | some rest ↦ after_equals (skip_spaces rest)
]

-- `std::regex_replace`: a match at a place is replaced, and the search goes on after it. `skip` is
-- the number of characters of the last match that are left.
module _ (format : Text → Text) (key : Text) where
  unfoldable pub replace_from : ℕ → Text → Text
  replace_from skip [] = []
  replace_from (suc skip) (c ∷ s) = replace_from skip s
  replace_from zero (c ∷ s) = elim (after_match key (c ∷ s)) [
    | none ↦ c ∷ replace_from 0 s
    | some rest ↦ format (c ∷ s) ++ replace_from (length s - length rest) s
  ]

-- The lambda `replace`; `expand` gives what a format text stands for, from the text at the match on.
unfoldable pub replace : (Text → Text → Text) → Text → Text → Text → Text
replace expand key value content =
    replace_from (λ at. expand at (key ++ (text " = \"" ++ (value ++ text "\"")))) key 0 content

unfoldable pub patched : (Text → Text → Text) → Text → Text → Text → Text
patched expand device_id token content =
    replace expand (text "token") token (replace expand (text "device_id") device_id content)

-- `can_write` is whether the file opens for writing.
unfoldable pub save : (Text → Text → Text) → Files → Text → Text → Text → Bool → Files × Bool
save expand fs config_path device_id token_encrypted can_write = elim (fs config_path) [
  | none ↦ (fs, false)
  | some content ↦
      if can_write
      then (write fs config_path (patched expand device_id token_encrypted content), true)
      else (fs, false)
]

-- `%0nx` of a number below 16 ^ n.
unfoldable pub hex_field : ℕ → ℕ → Text
hex_field zero n = []
hex_field (suc width) n = hex_field width (n / 16) ++ hex_digit (n % 16) ∷ []

-- From the two 64-bit numbers that the generator draws.
unfoldable pub generate_uuid : ℕ → ℕ → Text
unfolding hex_field
generate_uuid drawn_hi drawn_lo =
    let hi = bit_or (bit_and drawn_hi 0xFFFFFFFFFFFF0FFF) 0x4000 in
    let lo = bit_or (bit_and drawn_lo 0x3FFFFFFFFFFFFFFF) 0x8000000000000000 in
    hex_field 8 (hi / 2 ^ 32 % 2 ^ 32)
    ++ (b'-'
        ∷ (hex_field 4 (hi / 2 ^ 16 % 2 ^ 16)
            ++ (b'-'
                ∷ (hex_field 4 (hi % 2 ^ 16)
                    ++ (b'-'
                        ∷ (hex_field 4 (lo / 2 ^ 48 % 2 ^ 16)
                            ++ (b'-' ∷ hex_field 12 (lo % 2 ^ 48))))))))
