-- ===== src/Main/Onboarding/Outcomes.antt =====
-- What an attempt leaves behind, by its outcome.
use orbis_agent_desktop.Base.{
  ◌≡◌, refl, Bool, true, false, [], Option, none, some, Text, text, is_empty, ◌⊎◌, inl, inr,
  Bool-cases, Option-cases, if◌then◌else◌,
}
use orbis_agent_desktop.Base.Files.{Files, write}
use orbis_agent_desktop.Json.{JsonLib}
use orbis_agent_desktop.Json as Json
use orbis_agent_desktop.Config.{ConfigManager, set_device_id, set_token}
use orbis_agent_desktop.Config.Save.{save, patched}
use orbis_agent_desktop.Config.Token.{Crypto, Result, ok, err, encrypt_token}
use orbis_agent_desktop.Mqtt.{Client, Settings, construct, Credentials}
use orbis_agent_desktop.Topics.{topic_for, topic_register_ack_fmt}
use orbis_agent_desktop.Main.Onboarding.{
  Ack, Attempt, Outcome, onboarded, failed, threw, State, receive, store_credentials, finish,
  do_onboarding, attempt, announce, connect, publish, subscribe, topic_register, mqtt_default_qos,
  reg,
}

-- The configuration with the credentials.
abbrev pub with_credentials : ConfigManager → Text → Text → ConfigManager
with_credentials c id encrypted = record c { device_id = id; token_encrypted = encrypted }

module _ (expand : Text → Text → Text) (fs : Files) (path id encrypted : Text) where
  save-none :
      (can_write : Bool) → fs path ≡ none → save expand fs path id encrypted can_write ≡ (fs, false)
  unfolding save
  save-none can_write e = rw (e, save) refl

  pub save-some :
      (content : Text) (can_write : Bool)
      → fs path ≡ some content
      → save expand fs path id encrypted can_write ≡ (
          if can_write
          then (write fs path (patched expand id encrypted content), true)
          else (fs, false))
  unfolding save
  save-some content can_write e = rw (e, save) refl

module _ (json : JsonLib) (crypto : Crypto) (expand : Text → Text → Text) where
  -- The credentials with a token, in memory and in the file.
  abbrev pub Stored : Attempt → State → Text → Text → State → Type 0
  Stored at s id token s' =
      (encrypted : Text) × (content : Text) × (is_empty token ≡ false)
      × (encrypt_token crypto at.rand token ≡ ok encrypted)
      × (s.files s.config.config_path ≡ some content)
      × (s' ≡ record {
        config = with_credentials s.config id encrypted;
        files = write s.files s.config.config_path (patched expand id encrypted content);
      })

  -- In memory alone.
  abbrev pub Unsaved : Attempt → State → Text → Text → State → Type 0
  Unsaved at s id token s' =
      (encrypted : Text) × (is_empty token ≡ false)
      × (encrypt_token crypto at.rand token ≡ ok encrypted)
      × (s' ≡ record { config = with_credentials s.config id encrypted; files = s.files })

  abbrev pub After : Attempt → State → Text → Text → Outcome × State → Type 0
  After at s id token (onboarded, s') = Stored at s id token s'
  After at s id token (failed, s') = (s' ≡ s) ⊎ Unsaved at s id token s'
  After at s id token (threw, s') =
      (s' ≡ s) ⊎ (s' ≡ record { config = set_device_id s.config id; files = s.files })

  store_credentials-After :
      (at : Attempt) (s : State) (id token : Text)
      → is_empty token ≡ false
      → After at s id token (store_credentials json crypto expand at s id token)
  unfolding store_credentials set_token set_device_id
  store_credentials-After at s id token h =
      go (encrypt_token crypto at.rand token) (s.files s.config.config_path) at.can_write refl refl
        refl
    where
      go :
          (r : Result Text) (o : Option Text) (b : Bool)
          → encrypt_token crypto at.rand token ≡ r
          → s.files s.config.config_path ≡ o
          → at.can_write ≡ b
          → After at s id token (store_credentials json crypto expand at s id token)
      go (err x) o b e f g = rw (e, store_credentials, set_token) (inr refl)
      go (ok encrypted) none b e f g =
          rw (e, store_credentials, set_token)
            (rw (save-none expand s.files s.config.config_path id encrypted at.can_write f)
              (inr (encrypted, h, e, refl)))
      go (ok encrypted) (some content) true e f g =
          rw (e, store_credentials, set_token)
            (rw g (
              rw (save-some expand s.files s.config.config_path id encrypted content true f)
                (encrypted, content, h, e, f, refl)))
      go (ok encrypted) (some content) false e f g =
          rw (e, store_credentials, set_token)
            (rw g (
              rw (save-some expand s.files s.config.config_path id encrypted content false f)
                (inr (encrypted, h, e, refl))))

  finish-After :
      (at : Attempt) (s : State) (id : Text) (a : Ack)
      → After at s id a.received_token (finish json crypto expand at s id a)
  unfolding finish
  finish-After at s id a = elim (Bool-cases a.ack_received) [
    | inr e ↦ rw e (inl refl)
    | inl e ↦ rw e (elim (Bool-cases (is_empty a.received_token)) [
      | inl f ↦ rw f (inl refl)
      | inr f ↦ rw f (store_credentials-After at s id a.received_token f)
    ])
  ]

  -- What the callback has received when the waiting ends.
  abbrev pub answer : Attempt → Text → Ack
  answer at id =
      receive json (topic_for topic_register_ack_fmt id)
        (record { received_token = []; ack_received = false }) at.messages

  -- The outcome and the state, without the client.
  abbrev result {ℓ} : {C : Type ℓ} → Outcome × (State × C) → Outcome × State
  result (o, (s, c)) = (o, s)

  announce-After :
      (at : Attempt) (c : Client at.paho) (s : State) (id : Text) (r : Json.Result Text)
      → After at s id
          (answer at id).received_token
          (result (announce json crypto expand at c s id r))
  unfolding announce
  announce-After at c s id (Json.err what) = inl refl
  announce-After at c s id (Json.ok payload) =
      elim (Bool-cases (publish at.paho c topic_register payload mqtt_default_qos false).0) [
        | inl e ↦ rw e (finish-After at s id (answer at id))
        | inr e ↦ rw e (inl refl)
      ]

  do_onboarding-After :
      (at : Attempt) (mqtt : Client at.paho) (s : State) (id secret : Text)
      → After at s id
          (answer at id).received_token
          (result (do_onboarding json crypto expand at mqtt s id secret))
  unfolding do_onboarding
  do_onboarding-After at mqtt s id secret =
      let credentials : Credentials = record {
        username = text "register";
        password = secret;
        will_topic = [];
        will_payload = [];
        keepalive_sec = 60;
      } in
      let (connected, c₁) = connect at.paho mqtt credentials in
      let (subscribed, c₂) =
        subscribe at.paho c₁ (topic_for topic_register_ack_fmt id) mqtt_default_qos in
      elim (Bool-cases (connect at.paho mqtt credentials).0) [
        | inl e ↦ rw e (announce-After at c₂ s id (json.dump (reg json at id)))
        | inr e ↦ rw e (inl refl)
      ]

  -- An attempt that succeeds stores the token of the answer, encrypted, and the device id in memory,
  -- and patches both into the file. An attempt that fails or throws leaves the files as they were; one
  -- that fails leaves the configuration in memory as it was too, or has set both credentials there;
  -- one that throws has set at most the device id.
  pub attempt-After :
      (at : Attempt) (cfg : Settings) (s : State) (id secret : Text)
      → After at s id (answer at id).received_token (attempt json crypto expand at cfg s id secret)
  unfolding attempt
  attempt-After at cfg s id secret = elim (Option-cases (construct at.paho cfg)) [
    | inl e ↦ rw (e, attempt) (inl refl)
    | inr (mqtt, e) ↦ rw (e, attempt) (do_onboarding-After at mqtt s id secret)
  ]
