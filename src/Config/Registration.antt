-- ===== src/Config/Registration.antt =====
-- What the agent knows of itself after loading its configuration and after onboarding.
use orbis_agent_desktop.Base.{
  ℕ, ◌≡◌, ◌≢◌, refl, true, false, not, ◌&&◌, List, [], ◌∷◌, Option, none, some, Text, is_empty,
  arith, if◌then◌else◌, ap, text,
}
use orbis_agent_desktop.Config.{
  ConfigManager, Toml, load, load_table, not_parsed, get_token, set_token, is_registered,
}
use orbis_agent_desktop.Config.Token.{
  Crypto, CryptoLaws, IsIv, Result, ok, err, encrypt_token, decrypt_token-encrypt_token,
  is_empty-encrypt_token,
}

or_uuid :
    (uuid id : Text) → is_empty uuid ≡ false → is_empty (if is_empty id then uuid else id) ≡ false
or_uuid uuid [] h = h
or_uuid uuid (c ∷ cs) h = refl

module _ (toml : Toml) where
  device_id-load_table :
      (c : ConfigManager) (t : toml.Table) (uuid : Text)
      → is_empty uuid ≡ false
      → is_empty (load_table toml c t uuid).0.device_id ≡ false
  unfolding load_table
  device_id-load_table c t uuid h =
      ground (arith, or_uuid uuid (toml.find_text t (text "agent") (text "device_id") []) h)

  -- A file that is parsed leaves the agent with a device id, its own or the generated one, which
  -- is not empty, also where a list of the wrong type makes `load` throw.
  device_id-load :
      (c : ConfigManager) (path uuid : Text)
      → is_empty uuid ≡ false
      → (load toml c path uuid).1 ≢ not_parsed
      → is_empty (load toml c path uuid).0.device_id ≡ false
  unfolding load
  device_id-load c path uuid h parsed = go (toml.parse path) refl
    where
      go :
          (o : Option toml.Table)
          → toml.parse path ≡ o
          → is_empty (load toml c path uuid).0.device_id ≡ false
      go none e = absurd (parsed (rw (e, load)))
      go (some t) e = rw (e, load) (device_id-load_table (record c { config_path = path }) t uuid h)

module _ (crypto : Crypto) (laws : CryptoLaws crypto) where
  -- After a token is stored without a failure of its encryption, the agent reads back that token,
  -- its device id is the same, and it is registered exactly when neither its device id nor the
  -- token is empty.
  set_token_lem :
      (iv : List ℕ) (c : ConfigManager) (token : Text)
      → IsIv iv
      → (set_token crypto (some iv) c token).1 ≡ true
      → let c' = (set_token crypto (some iv) c token).0 in
        (get_token crypto c' ≡ token)
        × (is_registered c' ≡ (not (is_empty c.device_id) && not (is_empty token)))
        × (c'.device_id ≡ c.device_id)
  unfolding set_token get_token is_registered
  set_token_lem iv c token v h = go (encrypt_token crypto (some iv) token) refl
    where
      go :
          (r : Result Text)
          → encrypt_token crypto (some iv) token ≡ r
          → let c' = (set_token crypto (some iv) c token).0 in
            (get_token crypto c' ≡ token)
            × (is_registered c' ≡ (not (is_empty c.device_id) && not (is_empty token)))
            × (c'.device_id ≡ c.device_id)
      go (ok encrypted) e =
          rw (e, set_token)
            (
              decrypt_token-encrypt_token crypto laws iv token encrypted v e,
              ap (λ b. not (is_empty c.device_id) && not b)
                  (is_empty-encrypt_token crypto laws iv token encrypted v e),
              refl,
            )
      go (err x) e = let q : false ≡ true = (rw (e, set_token) at h) in cc
