-- ===== src/Mqtt/Success.antt =====
-- The calls of the wrapper when the Paho client's calls succeed.
use orbis_agent_desktop.Base.{ℕ, ◌≡◌, refl, Bool, true, Text, some, Bool-cases, inl, inr, arith}
use orbis_agent_desktop.Mqtt.{
  Paho, ConnectOptions, Settings, Credentials, Client, construct, connect, on_connected, subscribe,
  publish, is_connected, log_failure,
}

-- Every call of the client gives 0, and it is connected.
pub record Succeeds (paho : Paho) (cfg : Settings) : Type 0 where
  pub creates : (paho.create cfg.broker_uri cfg.client_id).0 ≡ 0
  pub connects : (options : ConnectOptions) (h : paho.Handle) → (paho.connect options h).0 ≡ 0
  pub alive : (h : paho.Handle) → paho.is_connected h ≡ true
  pub publishes :
      (topic payload : Text) (qos : ℕ) (retained : Bool) (h : paho.Handle)
      → (paho.publish_message topic payload qos retained h).0 ≡ 0

module _ (paho : Paho) (cfg : Settings) (p : Succeeds paho cfg) where
  pub construct-some : (c : Client paho) × (construct paho cfg ≡ some c)
  unfolding construct
  construct-some = rw p.creates (_, refl)

  pub connect-true : (c : Client paho) (cr : Credentials) → (connect paho c cr).0 ≡ true
  unfolding connect
  connect-true c cr = rw (p.connects, connect) refl

  connect-connected : (c : Client paho) (cr : Credentials) → (connect paho c cr).1.connected ≡ true
  unfolding connect on_connected
  connect-connected c cr = rw (p.connects, connect) refl

  subscribe-connected :
      (c : Client paho) (topic : Text) (qos : ℕ)
      → c.connected ≡ true
      → (subscribe paho c topic qos).1.connected ≡ true
  unfolding subscribe
  subscribe-connected c topic qos e = elim (Bool-cases (is_connected paho c)) [
    | inl h ↦ rw (h, subscribe) e
    | inr h ↦ rw (h, subscribe) (unfold log_failure in ground (arith, e))
  ]

  connected-publish :
      (c : Client paho) (topic payload : Text) (qos : ℕ) (retained : Bool)
      → c.connected ≡ true
      → (publish paho c topic payload qos retained).0 ≡ true
  unfolding publish is_connected
  connected-publish c topic payload qos retained e =
      rw (e, publish, is_connected)
        (rw (p.alive c.client) (rw (p.publishes topic payload qos retained c.client) refl))

  -- After a connection and a subscription a message is published.
  pub publish-true :
      (c : Client paho) (cr : Credentials) (topic topic' payload : Text) (qos qos' : ℕ)
      (retained : Bool)
      → (publish paho
          (subscribe paho (connect paho c cr).1 topic qos).1
          topic'
          payload
          qos'
          retained).0
        ≡ true
  publish-true c cr topic topic' payload qos qos' retained =
      connected-publish (subscribe paho (connect paho c cr).1 topic qos).1 topic' payload qos'
        retained (subscribe-connected (connect paho c cr).1 topic qos (connect-connected c cr))
