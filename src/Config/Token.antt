-- ===== src/Config/Token.antt =====
-- `deriveKey`, `encryptToken` and `decryptToken` of src/config/ConfigManager.cpp. OpenSSL and the
-- host's name are parameters.
use orbis_agent_desktop.Base.{
  ℕ, ◌<◌, ◌≡◌, refl, false, List, [], ◌∷◌, ◌++◌, Option, none, some, Text, length, take, drop, All,
  All-append, arith, ltb, if◌then◌else◌, length-append, take-append, is_empty, drop-append,
}
use orbis_agent_desktop.Config.Base64.{b64_encode, b64_decode}
use orbis_agent_desktop.Config.Base64.RoundTrip.{IsByte, b64_decode-encode, is_empty-b64_encode}

-- The EVP calls of one encryption or decryption, together: `none` where one of them fails.
pub record Crypto : Type 0 where
  pub hostname : Text
  pub sha256 : Text → List ℕ
  pub aes_encrypt : List ℕ → List ℕ → Text → Option (List ℕ)
  pub aes_decrypt : List ℕ → List ℕ → List ℕ → Option Text

-- What OpenSSL documents of AES-256-CBC with padding: decrypting with the key and the IV of the
-- encryption gives the plaintext, and a ciphertext is a positive number of bytes.
pub record CryptoLaws (c : Crypto) : Type 0 where
  pub decrypts :
      (key iv : List ℕ) (plaintext : Text) (ciphertext : List ℕ)
      → c.aes_encrypt key iv plaintext ≡ some ciphertext
      → c.aes_decrypt key iv ciphertext ≡ some plaintext
  pub padded :
      (key iv : List ℕ) (plaintext : Text) (ciphertext : List ℕ)
      → c.aes_encrypt key iv plaintext ≡ some ciphertext
      → (0 < length ciphertext) × All IsByte ciphertext

-- What `RAND_bytes` gave, if it did.
pub record IsIv (iv : List ℕ) : Type 0 where
  pub sixteen : length iv ≡ 16
  pub bytes : All IsByte iv

pub data Error : Type 0 where
  rand_bytes_failed encryption_failed : Error

pub data Result {ℓ} (A : Type ℓ) : Type ℓ where
  ok : A → Result A
  err : Error → Result A

module _ (c : Crypto) where
  pub derive_key : List ℕ
  derive_key = c.sha256 c.hostname

  unfoldable pub pack : List ℕ → Option (List ℕ) → Result Text
  pack iv none = err encryption_failed
  pack iv (some ciphertext) = ok (b64_encode (iv ++ ciphertext))

  -- `rand` is what `RAND_bytes` gives.
  unfoldable pub encrypt_token : Option (List ℕ) → Text → Result Text
  unfolding pack
  encrypt_token rand [] = ok []
  encrypt_token none (a ∷ plaintext) = err rand_bytes_failed
  encrypt_token (some iv) (a ∷ plaintext) = pack iv (c.aes_encrypt derive_key iv (a ∷ plaintext))

  abbrev or_empty : Option Text → Text
  or_empty none = []
  or_empty (some plaintext) = plaintext

  open_combined : List ℕ → Text
  open_combined combined =
      if ltb (length combined) 17
      then []
      else or_empty (c.aes_decrypt derive_key (take 16 combined) (drop 16 combined))

  pub decrypt_token : Text → Text
  unfolding open_combined
  decrypt_token ciphertext_b64 =
      if is_empty ciphertext_b64 then [] else open_combined (b64_decode ciphertext_b64)

  module _ (laws : CryptoLaws c) where
    open_combined-pack :
        (iv : List ℕ) (plaintext : Text) (ciphertext : List ℕ)
        → IsIv iv
        → c.aes_encrypt derive_key iv plaintext ≡ some ciphertext
        → open_combined (iv ++ ciphertext) ≡ plaintext
    unfolding open_combined
    open_combined-pack iv plaintext ciphertext v e = rw (length-append iv ciphertext) (
        rw (take-append 16 iv ciphertext v.sixteen) (
          rw (drop-append 16 iv ciphertext v.sixteen) (
            rw (laws.decrypts derive_key iv plaintext ciphertext e)
              (ground (arith, v.sixteen, (laws.padded derive_key iv plaintext ciphertext e).0)))))

    decrypt-pack :
        (iv : List ℕ) (plaintext : Text) (ciphertext : List ℕ)
        → IsIv iv
        → c.aes_encrypt derive_key iv plaintext ≡ some ciphertext
        → decrypt_token (b64_encode (iv ++ ciphertext)) ≡ plaintext
    unfolding decrypt_token
    decrypt-pack [] plaintext ciphertext v e = absurd (omega (arith, v.sixteen))
    decrypt-pack (b ∷ iv) plaintext ciphertext v e =
        rw (is_empty-b64_encode (b ∷ iv ++ ciphertext)) (
          rw
            (b64_decode-encode (b ∷ iv ++ ciphertext) (
              All-append IsByte (b ∷ iv) ciphertext v.bytes
                (laws.padded derive_key (b ∷ iv) plaintext ciphertext e).1))
            (open_combined-pack (b ∷ iv) plaintext ciphertext v e))

    pack_cases :
        (iv : List ℕ) (plaintext encrypted : Text) (o : Option (List ℕ))
        → pack iv o ≡ ok encrypted
        → (ciphertext : List ℕ) × (o ≡ some ciphertext)
          × (encrypted ≡ b64_encode (iv ++ ciphertext))
    unfolding pack
    pack_cases iv plaintext encrypted none e = cc
    pack_cases iv plaintext encrypted (some ciphertext) e = (ciphertext, refl, ground arith)

    -- A token whose encryption, with an initialization vector of sixteen bytes, succeeded is what
    -- decryption on the same host returns, the empty token too, where the cipher undoes itself.
    pub decrypt_token-encrypt_token :
        (iv : List ℕ) (plaintext encrypted : Text)
        → IsIv iv
        → encrypt_token (some iv) plaintext ≡ ok encrypted
        → decrypt_token encrypted ≡ plaintext
    unfolding encrypt_token
    decrypt_token-encrypt_token iv [] encrypted v e =
        let h : encrypted ≡ [] = ground arith in rw h (unfold decrypt_token in refl)
    decrypt_token-encrypt_token iv (a ∷ plaintext) encrypted v e =
        let (ciphertext, p, q) =
          pack_cases iv (a ∷ plaintext) encrypted (c.aes_encrypt derive_key iv (a ∷ plaintext)) e in
        rw q (decrypt-pack iv (a ∷ plaintext) ciphertext v p)

    is_empty-pack :
        (iv ciphertext : List ℕ) → IsIv iv → is_empty (b64_encode (iv ++ ciphertext)) ≡ false
    is_empty-pack [] ciphertext v = absurd (omega (arith, v.sixteen))
    is_empty-pack (b ∷ iv) ciphertext v = is_empty-b64_encode (b ∷ iv ++ ciphertext)

    -- The encryption is empty exactly when the token is.
    pub is_empty-encrypt_token :
        (iv : List ℕ) (plaintext encrypted : Text)
        → IsIv iv
        → encrypt_token (some iv) plaintext ≡ ok encrypted
        → is_empty encrypted ≡ is_empty plaintext
    unfolding encrypt_token
    is_empty-encrypt_token iv [] encrypted v e = ground arith
    is_empty-encrypt_token iv (a ∷ plaintext) encrypted v e =
        let (ciphertext, p, q) =
          pack_cases iv (a ∷ plaintext) encrypted (c.aes_encrypt derive_key iv (a ∷ plaintext)) e in
        rw q (is_empty-pack iv ciphertext v)
