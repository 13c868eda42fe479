-- ===== src/Main/Onboarding/Answered.antt =====
-- An attempt that the broker answers.
use orbis_agent_desktop.Base.{
  ℕ, ◌≡◌, refl, ◌∙◌, Bool, true, false, List, [], ◌∷◌, ◌++◌, some, Text, text, is_empty,
  text_eq_refl, All, length, arith,
}
use orbis_agent_desktop.Json.{JsonLib}
use orbis_agent_desktop.Json as Json
use orbis_agent_desktop.Config.{set_token, set_device_id}
use orbis_agent_desktop.Config.Token.{Crypto, CryptoLaws, ok, encrypt_token}
use orbis_agent_desktop.Mqtt.{Settings, Client}
use orbis_agent_desktop.Mqtt.Success.{Succeeds, construct-some, connect-true, publish-true}
use orbis_agent_desktop.Topics.{topic_for, topic_register_ack_fmt}
use orbis_agent_desktop.Main.Onboarding.{
  Ack, Attempt, onboarded, State, receive, accepted, on_ack, reg, attempt, finish, announce,
  do_onboarding, store_credentials, onboarding_loop,
}
use orbis_agent_desktop.Main.Onboarding.Outcomes.{answer, save-some}
use orbis_agent_desktop.Main.Onboarding.Attempts.{
  receive-append, Random, Calm, onboarding_loop-Ends, Ends,
}

module _ (json : JsonLib) (crypto : Crypto) (expand : Text → Text → Text) (cfg : Settings)
    (id secret : Text) where
  -- The client works, the last message before the waiting ends is an acceptance on the topic of the
  -- device with a token, the token can be encrypted, and the file opens for writing.
  pub record IsAnswered (at : Attempt) : Type 0 where
    pub client : Succeeds at.paho cfg
    pub payload : Text
    pub dumped : json.dump (reg json at id) ≡ Json.ok payload
    pub earlier : List (Text × Text)
    pub reply : Text
    pub last : at.messages ≡ earlier ++ (topic_for topic_register_ack_fmt id, reply) ∷ []
    pub document : json.Value
    pub token : Text
    pub parsed : json.parse reply ≡ Json.ok document
    pub status_ok : json.value_text document (text "status") [] ≡ Json.ok (text "ok")
    pub gives : json.value_text document (text "token") [] ≡ Json.ok token
    pub given : is_empty token ≡ false
    pub encrypted : Text
    pub encrypts : encrypt_token crypto at.rand token ≡ ok encrypted
    pub opens : at.can_write ≡ true

  module _ (at : Attempt) (a : IsAnswered at) where
    on_ack-accepted :
        (before : Ack)
        → on_ack json
            (topic_for topic_register_ack_fmt id)
            before
            (topic_for topic_register_ack_fmt id, a.reply)
          ≡ record { received_token = a.token; ack_received = true }
    unfolding on_ack accepted
    on_ack-accepted before = rw (text_eq_refl (topic_for topic_register_ack_fmt id)) (
        rw (a.parsed, on_ack)
          (rw (a.status_ok, on_ack) (rw (text_eq_refl (text "ok")) (rw (a.gives, accepted) refl))))

    answer_lem :
        answer json crypto expand at id ≡ record { received_token = a.token; ack_received = true }
    unfolding receive
    answer_lem = rw a.last (
        receive-append json (topic_for topic_register_ack_fmt id) _ a.earlier (_ ∷ [])
        ∙ on_ack-accepted _)

    store_credentials-onboarded :
        (s : State) (content : Text)
        → s.files s.config.config_path ≡ some content
        → (store_credentials json crypto expand at s id a.token).0 ≡ onboarded
    unfolding store_credentials set_token set_device_id
    store_credentials-onboarded s content f =
        rw (a.encrypts, store_credentials, set_token)
          (rw a.opens
            (rw (save-some expand s.files s.config.config_path id a.encrypted content true f) refl))

    finish-onboarded :
        (s : State) (content : Text)
        → s.files s.config.config_path ≡ some content
        → (finish json crypto expand at s id (answer json crypto expand at id)).0 ≡ onboarded
    unfolding finish
    finish-onboarded s content f =
        rw answer_lem (rw a.given (store_credentials-onboarded s content f))

    do_onboarding-onboarded :
        (mqtt : Client at.paho) (s : State) (content : Text)
        → s.files s.config.config_path ≡ some content
        → (do_onboarding json crypto expand at mqtt s id secret).0 ≡ onboarded
    unfolding do_onboarding announce
    do_onboarding-onboarded mqtt s content f =
        rw (connect-true at.paho cfg a.client mqtt _, do_onboarding)
          (rw (a.dumped, announce)
            (rw (publish-true at.paho cfg a.client mqtt _ _ _ _ _ _ _, announce)
              (finish-onboarded s content f)))

    attempt-onboarded :
        (s : State) (content : Text)
        → s.files s.config.config_path ≡ some content
        → (attempt json crypto expand at cfg s id secret).0 ≡ onboarded
    unfolding attempt
    attempt-onboarded s content f =
        let (c, e) = construct-some at.paho cfg a.client in
        rw (e, attempt) (do_onboarding-onboarded c s content f)

-- An agent that is not shut down and that has a device id and its configuration file leaves the
-- onboarding loop registered, where some attempt is answered and none before it throws, and has then
-- retried at most as often as there were attempts before it, and slept at most a minute for each retry.
pub onboarding_loop-registers :
    (json : JsonLib) (crypto : Crypto) (expand : Text → Text → Text) (laws : CryptoLaws crypto)
    (cfg : Settings) (id secret : Text) (id_given : is_empty id ≡ false) (shutdown : ℕ → Bool)
    → ((n : ℕ) → shutdown n ≡ false)
    → (before after : List Attempt) (at : Attempt) (s : State) (content : Text)
    → All (Calm json crypto expand cfg id secret) before
    → Random at
    → IsAnswered json crypto expand cfg id secret at
    → s.files s.config.config_path ≡ some content
    → Ends 0
        (length before)
        (onboarding_loop json crypto expand shutdown cfg id secret 0 0 s (before ++ at ∷ after))
onboarding_loop-registers json crypto expand laws cfg id secret id_given shutdown running before
      after at s content calm random a f =
    onboarding_loop-Ends json crypto expand laws cfg id secret id_given at random
      (attempt-onboarded json crypto expand cfg id secret at a) shutdown running after before 0 0 s
      content calm f (omega arith)
