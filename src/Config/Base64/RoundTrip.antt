-- ===== src/Config/Base64/RoundTrip.antt =====
-- Decoding what was encoded gives the bytes back.
use orbis_agent_desktop.Base.{
  ◌++◌, All, ℕ, ◌+◌, ◌*◌, ◌/◌, ◌%◌, ◌^◌, ◌<◌, ◌≡◌, refl, Bool, true, false, ◌&&◌, ◌==◌, ==_iff, ltb,
  [], ◌∷◌, arith, Text, if◌then◌else◌, leb, ap, List, ◌∙◌, is_empty, holds_below, instance_of,
}
use Prim.Native.Nat.{bit_and, bit_or}
use orbis_agent_desktop.Base.Int.{ℤ, pos, negsuc, ◌+ℤ◌, is_negative, pos_part}
use orbis_agent_desktop.Config.Base64.{
  decode_loop, lookup, char_at, encode_block, b64_decode, b64_encode,
}

bit_and-three : (b : ℕ) → b < 256 → bit_and b 3 ≡ b % 4
bit_and-three b h =
    (==_iff _ _).0 (instance_of (λ x. bit_and x 3 == x % 4) 256 b (unfold holds_below in refl) h)

bit_and-fifteen : (b : ℕ) → b < 256 → bit_and b 15 ≡ b % 16
bit_and-fifteen b h =
    (==_iff _ _).0 (instance_of (λ x. bit_and x 15 == x % 16) 256 b (unfold holds_below in refl) h)

bit_and-sixty_three : (b : ℕ) → b < 256 → bit_and b 63 ≡ b % 64
bit_and-sixty_three b h =
    (==_iff _ _).0 (instance_of (λ x. bit_and x 63 == x % 64) 256 b (unfold holds_below in refl) h)

-- `|` adds where the bits of the two sides do not meet.
bit_or_parts :
    (a b k m n : ℕ)
    → holds_below (λ x. holds_below (λ y. bit_or (x * k) y == x * k + y) n) m ≡ true
    → a < m
    → b < n
    → bit_or (a * k) b ≡ a * k + b
bit_or_parts a b k m n h ha hb = (==_iff _ _).0 (
    instance_of (λ y. bit_or (a * k) y == a * k + y) n b
      (instance_of (λ x. holds_below (λ y. bit_or (x * k) y == x * k + y) n) m a h ha) hb)

second_digit :
    (b0 b1 : ℕ) → b0 < 256 → b1 < 256 → bit_or (bit_and b0 3 * 16) (b1 / 16) ≡ b0 % 4 * 16 + b1 / 16
second_digit b0 b1 h0 h1 = rw (bit_and-three b0 h0) (
    bit_or_parts (b0 % 4) (b1 / 16) 16 4 16 (unfold holds_below in refl) (omega arith)
      (omega arith))

third_digit :
    (b1 b2 : ℕ) → b1 < 256 → b2 < 256 → bit_or (bit_and b1 15 * 4) (b2 / 64) ≡ b1 % 16 * 4 + b2 / 64
third_digit b1 b2 h1 h2 = rw (bit_and-fifteen b1 h1) (
    bit_or_parts (b1 % 16) (b2 / 64) 4 16 4 (unfold holds_below in refl) (omega arith)
      (omega arith))

is_digit : ℕ → ℤ → Bool
is_digit i (pos n) = n == i
is_digit i (negsuc n) = false

char_at-digit : (i : ℕ) → i < 64 → (ltb (char_at i) 128 && is_digit i (lookup (char_at i))) ≡ true
char_at-digit i h =
    instance_of (λ x. ltb (char_at x) 128 && is_digit x (lookup (char_at x))) 64 i
      (unfold holds_below char_at lookup is_digit in refl) h

is_digit-eq : (i : ℕ) (z : ℤ) → is_digit i z ≡ true → z ≡ pos i
unfolding is_digit
is_digit-eq i (pos n) h = ground arith
is_digit-eq i (negsuc n) h = cc

lookup-char_at : (i : ℕ) → i < 64 → lookup (char_at i) ≡ pos i
lookup-char_at i h = is_digit-eq i _ (ground (arith, char_at-digit i h))

char_at-lt : (i : ℕ) → i < 64 → char_at i < 128
char_at-lt i h = ground (arith, char_at-digit i h)

-- One character of the alphabet feeds six bits to the decoder.
abbrev fed : ℕ → ℕ → ℕ
fed val i = (val * 2 ^ 6 + i) % 2 ^ 32

not_leb : (a b : ℕ) → b < a → leb a b ≡ false
not_leb a b h = ground arith

decode-char_at :
    (i : ℕ) (cs : Text) (val : ℕ) (bits : ℤ)
    → i < 64
    → decode_loop (char_at i ∷ cs) val bits ≡ (
        let bits' = bits +ℤ pos 6 in
        let rest =
          decode_loop cs (fed val i) (if is_negative bits' then bits' else bits' +ℤ negsuc 7) in
        if is_negative bits' then rest else (fed val i / 2 ^ pos_part bits') % 2 ^ 8 ∷ rest)
unfolding decode_loop
decode-char_at i cs val bits h =
    rw (not_leb 128 (char_at i) (char_at-lt i h)) (rw (lookup-char_at i h))

decode-padding : (cs : Text) (val : ℕ) (bits : ℤ) → decode_loop (b'=' ∷ cs) val bits ≡ []
unfolding decode_loop lookup
decode-padding cs val bits = refl

abbrev v1 : ℕ → ℕ → ℕ → ℕ
v1 b0 b1 val = fed (fed val (b0 / 4)) (b0 % 4 * 16 + b1 / 16)

abbrev v2 : ℕ → ℕ → ℕ → ℕ → ℕ
v2 b0 b1 b2 val = fed (v1 b0 b1 val) (b1 % 16 * 4 + b2 / 64)

-- The three bytes of a full block, from the states of the decoder within it.
module _ (b0 b1 b2 val : ℕ) (h0 : b0 < 256) (h1 : b1 < 256) (h2 : b2 < 256) where
  first_byte : (v1 b0 b1 val / 2 ^ 4) % 2 ^ 8 ≡ b0
  first_byte = omega arith

  second_byte : (v2 b0 b1 b2 val / 2 ^ 2) % 2 ^ 8 ≡ b1
  second_byte = omega arith

  third_byte : (fed (v2 b0 b1 b2 val) (b2 % 64) / 2 ^ 0) % 2 ^ 8 ≡ b2
  third_byte = omega arith

abbrev pub IsByte : ℕ → Type 0
IsByte b = b < 256

decode-one :
    (b0 val : ℕ) → b0 < 256 → decode_loop (encode_block b0 0 0 false false) val (negsuc 7) ≡ b0 ∷ []
unfolding encode_block
decode-one b0 val h0 = rw (second_digit b0 0 h0 (omega arith)) (
    rw (decode-char_at (b0 / 4) _ val (negsuc 7) (omega arith)) (
      rw (decode-char_at (b0 % 4 * 16 + 0 / 16) _ _ (negsuc 1) (omega arith)) (
        rw decode-padding
          (ap (λ b. b ∷ []) (first_byte b0 0 0 val h0 (omega arith) (omega arith))))))

decode-two :
    (b0 b1 val : ℕ)
    → b0 < 256
    → b1 < 256
    → decode_loop (encode_block b0 b1 0 true false) val (negsuc 7) ≡ b0 ∷ b1 ∷ []
unfolding encode_block
decode-two b0 b1 val h0 h1 = rw (second_digit b0 b1 h0 h1) (
    rw (third_digit b1 0 h1 (omega arith)) (
      rw (decode-char_at (b0 / 4) _ val (negsuc 7) (omega arith)) (
        rw (decode-char_at (b0 % 4 * 16 + b1 / 16) _ _ (negsuc 1) (omega arith)) (
          rw (decode-char_at (b1 % 16 * 4 + 0 / 64) _ _ (negsuc 3) (omega arith)) (
            rw decode-padding (λ i.
              first_byte b0 b1 0 val h0 h1 (omega arith) i
              ∷ second_byte b0 b1 0 val h0 h1 (omega arith) i
              ∷ []))))))

decode-block :
    (b0 b1 b2 val : ℕ) (cs : Text)
    → b0 < 256
    → b1 < 256
    → b2 < 256
    → decode_loop (encode_block b0 b1 b2 true true ++ cs) val (negsuc 7)
      ≡ b0 ∷ b1 ∷ b2 ∷ decode_loop cs (fed (v2 b0 b1 b2 val) (b2 % 64)) (negsuc 7)
unfolding encode_block
decode-block b0 b1 b2 val cs h0 h1 h2 = rw (second_digit b0 b1 h0 h1) (
    rw (third_digit b1 b2 h1 h2) (
      rw (bit_and-sixty_three b2 h2) (
        rw (decode-char_at (b0 / 4) _ val (negsuc 7) (omega arith)) (
          rw (decode-char_at (b0 % 4 * 16 + b1 / 16) _ _ (negsuc 1) (omega arith)) (
            rw (decode-char_at (b1 % 16 * 4 + b2 / 64) _ _ (negsuc 3) (omega arith)) (
              rw (decode-char_at (b2 % 64) _ _ (negsuc 5) (omega arith)) (λ i.
                first_byte b0 b1 b2 val h0 h1 h2 i
                ∷ second_byte b0 b1 b2 val h0 h1 h2 i
                ∷ third_byte b0 b1 b2 val h0 h1 h2 i
                ∷ decode_loop cs (fed (v2 b0 b1 b2 val) (b2 % 64)) (negsuc 7))))))))

-- The decoder's accumulator may hold anything: only its low bits reach the output.
decode_loop-encode :
    (bs : List ℕ) (val : ℕ) → All IsByte bs → decode_loop (b64_encode bs) val (negsuc 7) ≡ bs
unfolding b64_encode
decode_loop-encode [] val h = unfold decode_loop in refl
decode_loop-encode (b0 ∷ []) val h = decode-one b0 val h.0
decode_loop-encode (b0 ∷ b1 ∷ []) val h = decode-two b0 b1 val h.0 h.1.0
decode_loop-encode (b0 ∷ b1 ∷ b2 ∷ rest) val h =
    decode-block b0 b1 b2 val (b64_encode rest) h.0 h.1.0 h.1.1.0
    ∙ ap (λ bs. b0 ∷ b1 ∷ b2 ∷ bs)
        (decode_loop-encode rest (fed (v2 b0 b1 b2 val) (b2 % 64)) h.1.1.1)

-- Every sequence of numbers below 256, of any length, is what decoding its base64 text gives.
pub b64_decode-encode : (bs : List ℕ) → All IsByte bs → b64_decode (b64_encode bs) ≡ bs
unfolding b64_decode
b64_decode-encode bs h = decode_loop-encode bs 0 h

pub is_empty-b64_encode : (bs : List ℕ) → is_empty (b64_encode bs) ≡ is_empty bs
unfolding b64_encode encode_block
is_empty-b64_encode [] = refl
is_empty-b64_encode (b0 ∷ []) = refl
is_empty-b64_encode (b0 ∷ b1 ∷ []) = refl
is_empty-b64_encode (b0 ∷ b1 ∷ b2 ∷ rest) = refl
