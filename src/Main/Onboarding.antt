-- ===== src/Main/Onboarding.antt =====
-- `doOnboarding` of src/main.cpp, the callback that it registers, and the loop of `main` that tries it
-- until the agent is registered. What the broker answers, the system's facts, the randomness of the
-- encryption and whether the file opens are given for each attempt.
pub mod Outcomes
pub mod Attempts
pub mod Answered
use orbis_agent_desktop.Base.{
  ℕ, zero, suc, ◌+◌, Bool, true, false, not, List, [], ◌∷◌, Option, none, some, Text, text, text_eq,
  is_empty, if◌then◌else◌, ltb,
}
use orbis_agent_desktop.Base.Files.{Files}
use orbis_agent_desktop.Json.{JsonLib, Result, ok, err}
use orbis_agent_desktop.Config.{ConfigManager, set_device_id, set_token, is_registered}
use orbis_agent_desktop.Config.Save.{save}
use orbis_agent_desktop.Config.Token.{Crypto}
use orbis_agent_desktop.Executor.{agent_version}
use orbis_agent_desktop.Mqtt.{
  Paho, Client, Settings, mqtt_default_qos, construct, connect, subscribe, publish, disconnect,
}
use orbis_agent_desktop.Topics.{topic_for, topic_register, topic_register_ack_fmt}

abbrev mqtt_register_username : Text
mqtt_register_username = text "register"

abbrev mqtt_keepalive_sec : ℕ
mqtt_keepalive_sec = 60

abbrev pub timeout_register_retry_sec : ℕ
timeout_register_retry_sec = 60

-- What the callback and the thread that waits share.
pub record Ack : Type 0 where
  pub received_token : Text
  pub ack_received : Bool

-- What one attempt meets; `messages` arrive before the waiting ends, in their order.
pub record Attempt : Type 1 where
  pub paho : Paho
  pub hostname : Text
  pub os_version : Text
  pub architecture : Text
  pub timestamp : Text
  pub messages : List (Text × Text)
  pub rand : Option (List ℕ)
  pub can_write : Bool
  -- The shutdown flag in each second of the sleep before the attempt.
  pub shutdown_in_wait : ℕ → Bool

-- `true`, `false`, and an exception that leaves the function.
pub data Outcome : Type 0 where
  onboarded failed threw : Outcome

pub record State : Type 0 where
  pub config : ConfigManager
  pub files : Files

-- How the loop leaves: by its condition or `break`, on the shutdown flag, or by an exception;
-- `trying` is where the attempts given are used up. With the retries and the seconds slept.
pub data Exit : Type 0 where
  left : ℕ → ℕ → State → Exit
  shut_down : State → Exit
  terminated : State → Exit
  trying : State → Exit

-- The seconds slept between two attempts, a second at a time, while the flag is not set.
unfoldable pub retry_wait : ℕ → (ℕ → Bool) → ℕ
retry_wait zero shutdown_at = 0
retry_wait (suc n) shutdown_at =
    let rest = retry_wait n (λ i. shutdown_at (suc i)) in if shutdown_at 0 then 0 else rest + 1

-- The seconds slept when attempt `retry` starts.
pub slept_after : ℕ → ℕ → (ℕ → Bool) → ℕ
slept_after retry slept shutdown_at =
    if ltb 0 retry then slept + retry_wait timeout_register_retry_sec shutdown_at else slept

-- What follows an attempt: `break`, another turn, or the exception, which is caught nowhere.
pub turn : Outcome → ℕ → ℕ → State → Exit → Exit
turn onboarded retry slept s again = left retry slept s
turn failed retry slept s again = again
turn threw retry slept s again = terminated s

module _ (json : JsonLib) where
  rejected : json.Value → Ack → Ack
  rejected j a = elim (json.value_text j (text "message") (text "unknown")) [
    | err what ↦ a
    | ok message ↦ record a { ack_received = true }
  ]

  accepted : json.Value → Ack → Ack
  accepted j a = elim (json.value_text j (text "token") []) [
    | err what ↦ a
    | ok token ↦ record { received_token = token; ack_received = true }
  ]

  -- The callback: an exception leaves what was received as it was.
  pub on_ack : Text → Ack → Text × Text → Ack
  unfolding rejected accepted
  on_ack ack_topic a (topic, payload) =
      if text_eq topic ack_topic
      then elim (json.parse payload) [
        | err what ↦ a
        | ok j ↦ elim (json.value_text j (text "status") []) [
          | err what ↦ a
          | ok status ↦ if text_eq status (text "ok") then accepted j a else rejected j a
        ]
      ]
      else a

  unfoldable pub receive : Text → Ack → List (Text × Text) → Ack
  receive ack_topic a [] = a
  receive ack_topic a (m ∷ ms) = receive ack_topic (on_ack ack_topic a m) ms

  pub reg : Attempt → Text → json.Value
  reg at device_id = json.object (
      (text "device_id", json.of_text device_id)
      ∷ (text "hostname", json.of_text at.hostname)
      ∷ (text "plateforme", json.of_text (text "linux"))
      ∷ (text "os_version", json.of_text at.os_version)
      ∷ (text "architecture", json.of_text at.architecture)
      ∷ (text "version_agent", json.of_text agent_version)
      ∷ (text "timestamp", json.of_text at.timestamp)
      ∷ [])

  module _ (crypto : Crypto) (expand : Text → Text → Text) where
    -- The credentials, once a token has been received.
    pub store_credentials : Attempt → State → Text → Text → Outcome × State
    store_credentials at s device_id token =
        let (config, encrypted) =
          set_token crypto at.rand (set_device_id s.config device_id) token in
        let (files, saved) =
          save expand s.files config.config_path config.device_id config.token_encrypted
            at.can_write in
        if encrypted
        then (if saved then onboarded else failed, record { config = config; files = files })
        else (threw, record s { config = config })

    -- What follows the waiting: `false` without a token.
    pub finish : Attempt → State → Text → Ack → Outcome × State
    finish at s device_id a =
        if not a.ack_received
        then (failed, s)
        else if is_empty a.received_token
        then (failed, s)
        else store_credentials at s device_id a.received_token

    -- The client is disconnected where the registration is complete.
    pub leave : (at : Attempt) → Outcome → Client at.paho → Client at.paho
    leave at onboarded c = disconnect at.paho c
    leave at failed c = c
    leave at threw c = c

    -- From the publication of the document on; the text of it is what `dump` gives.
    pub announce :
        (at : Attempt)
        → Client at.paho
        → State
        → Text
        → Result Text
        → Outcome × (State × Client at.paho)
    unfolding finish leave
    announce at c s device_id (err what) = (threw, (s, c))
    announce at c s device_id (ok payload) =
        let (published, c') = publish at.paho c topic_register payload mqtt_default_qos false in
        let ack_topic = topic_for topic_register_ack_fmt device_id in
        let a =
          receive ack_topic (record { received_token = []; ack_received = false }) at.messages in
        let (outcome, s') = finish at s device_id a in
        if published then (outcome, (s', leave at outcome c')) else (failed, (s, c'))

    unfoldable pub do_onboarding :
        (at : Attempt) → Client at.paho → State → Text → Text → Outcome × (State × Client at.paho)
    unfolding announce
    do_onboarding at mqtt s device_id register_secret =
        let (connected, c₁) = connect at.paho mqtt (record {
          username = mqtt_register_username;
          password = register_secret;
          will_topic = [];
          will_payload = [];
          keepalive_sec = mqtt_keepalive_sec;
        }) in
        let (subscribed, c₂) =
          subscribe at.paho c₁ (topic_for topic_register_ack_fmt device_id) mqtt_default_qos in
        if connected
        then announce at c₂ s device_id (json.dump (reg at device_id))
        else (failed, (s, c₁))

    -- One turn of the loop: the client is made anew.
    unfoldable pub attempt : Attempt → Settings → State → Text → Text → Outcome × State
    unfolding do_onboarding
    attempt at cfg s device_id register_secret = elim (construct at.paho cfg) [
      | none ↦ (threw, s)
      | some mqtt ↦
          let (outcome, (s', c)) = do_onboarding at mqtt s device_id register_secret in
          (outcome, s')
    ]

    -- `shutdown n` is the flag when attempt n is due.
    pub onboarding_loop : (ℕ → Bool) → Settings → Text → Text → ℕ → ℕ → State → List Attempt → Exit
    onboarding_loop shutdown cfg device_id register_secret retry slept s [] =
        if shutdown retry
        then shut_down s
        else if is_registered s.config
        then left retry slept s
        else trying s
    onboarding_loop shutdown cfg device_id register_secret retry slept s (at ∷ ats) =
        let slept' = slept_after retry slept at.shutdown_in_wait in
        let (outcome, s') = attempt at cfg s device_id register_secret in
        let again =
          onboarding_loop shutdown cfg device_id register_secret (retry + 1) slept' s' ats in
        if shutdown retry
        then shut_down s
        else if is_registered s.config
        then left retry slept s
        else turn outcome retry slept' s' again
