-- ===== src/Config/Tests.antt =====
-- A cipher that meets what is assumed of OpenSSL, and the theorems about the configuration at small
-- inputs.
use orbis_agent_desktop.Base.{
  ℕ, ◌≡◌, refl, Bool, true, false, ◌&&◌, List, [], ◌∷◌, Option, none, some, Text, text, ltb, All,
  arith, if◌then◌else◌, length, ◌<◌, ◌++◌,
}
use orbis_agent_desktop.Base.Int.{pos}
use orbis_agent_desktop.Config.{ConfigManager}
use orbis_agent_desktop.Config.Base64.{b64_encode, b64_decode}
use orbis_agent_desktop.Config.Base64.RoundTrip.{b64_decode-encode, IsByte}
use orbis_agent_desktop.Config.Token.{
  Crypto, CryptoLaws, IsIv, encrypt_token, decrypt_token, decrypt_token-encrypt_token,
}

abbrev are_bytes : List ℕ → Bool
are_bytes [] = true
are_bytes (b ∷ bs) = ltb b 256 && are_bytes bs

are_bytes-IsByte : (bs : List ℕ) → are_bytes bs ≡ true → All IsByte bs
are_bytes-IsByte [] h = tt
are_bytes-IsByte (b ∷ bs) h = (ground arith, are_bytes-IsByte bs (ground arith))

abbrev strip : List ℕ → Option Text
strip [] = none
strip (b ∷ bs) = some bs

-- One byte before the plaintext.
abbrev pub toy_crypto : Crypto
toy_crypto = record {
  hostname = text "host";
  sha256 = λ s. s;
  aes_encrypt = λ key iv plaintext. if are_bytes plaintext then some (0 ∷ plaintext) else none;
  aes_decrypt = λ key iv ciphertext. strip ciphertext;
}

pub toy_crypto-CryptoLaws : CryptoLaws toy_crypto
toy_crypto-CryptoLaws = record {
  decrypts = λ key iv plaintext ciphertext e. decrypts plaintext ciphertext e;
  padded = λ key iv plaintext ciphertext e. padded plaintext ciphertext e;
}
  where
    decrypts :
        (plaintext : Text) (ciphertext : List ℕ)
        → (if are_bytes plaintext then some (0 ∷ plaintext) else none) ≡ some ciphertext
        → strip ciphertext ≡ some plaintext
    decrypts plaintext ciphertext e = ground arith

    padded :
        (plaintext : Text) (ciphertext : List ℕ)
        → (if are_bytes plaintext then some (0 ∷ plaintext) else none) ≡ some ciphertext
        → (0 < length ciphertext) × All IsByte ciphertext
    padded plaintext ciphertext e = (ground arith, ground (arith, are_bytes-IsByte plaintext))

abbrev pub iv16 : List ℕ
iv16 = 1 ∷ 2 ∷ 3 ∷ 4 ∷ 5 ∷ 6 ∷ 7 ∷ 8 ∷ 9 ∷ 10 ∷ 11 ∷ 12 ∷ 13 ∷ 14 ∷ 15 ∷ 255 ∷ []

pub iv16-IsIv : IsIv iv16
iv16-IsIv = record { sixteen = refl; bytes = omega arith }

abbrev token : Text
token = 116 ∷ 111 ∷ 107 ∷ []

abbrev pub fresh : ConfigManager
fresh = record {
  config_path = [];
  device_id = 100 ∷ [];
  token_encrypted = [];
  log_file = [];
  buffer_db = [];
  mqtt = record {
    broker_host = [];
    broker_port = pos 8883;
    use_tls = true;
    ca_cert_path = [];
    register_secret = [];
    reconnect_delay_min_sec = pos 1;
    reconnect_delay_max_sec = pos 60;
    keepalive_sec = pos 60;
  };
  log = record { interval_sec = pos 60; levels = []; sources = [] };
  heartbeat_interval_sec = pos 30;
  plugins = record { enabled = true; plugins_dir = [] };
  scanner = record { enabled = false; scan_interval_sec = pos 300; port_range = [] };
}

b64_decode-encode_example :
    b64_decode (b64_encode (77 ∷ 97 ∷ 255 ∷ 0 ∷ [])) ≡ 77 ∷ 97 ∷ 255 ∷ 0 ∷ []
b64_decode-encode_example = b64_decode-encode (77 ∷ 97 ∷ 255 ∷ 0 ∷ []) (omega arith)

decrypt_token-encrypt_token_example :
    decrypt_token toy_crypto (b64_encode (iv16 ++ 0 ∷ token)) ≡ token
decrypt_token-encrypt_token_example =
    decrypt_token-encrypt_token toy_crypto toy_crypto-CryptoLaws iv16 token
      (b64_encode (iv16 ++ 0 ∷ token)) iv16-IsIv (unfold encrypt_token in refl)
