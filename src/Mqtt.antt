-- ===== src/Mqtt.antt =====
-- src/mqtt/MQTTClient.hpp and MQTTClient.cpp: the wrapper of the Paho client, which is a parameter.
-- A method runs alone; the delays of the settings are not negative, and their product with 1024
-- is an `int`.
pub mod Subscriptions
pub mod Reconnect
pub mod Success
pub mod LogSink
pub mod Inbound
pub mod Tests
use orbis_agent_desktop.Base.{
  ℕ, zero, suc, ◌+◌, ◌*◌, ◌^◌, min, Bool, true, false, ◌&&◌, ◌||◌, not, List, [], ◌∷◌, ◌++◌, Option,
  none, some, Text, text, text_eq, starts_with, is_empty, if◌then◌else◌, ◌==◌,
}

pub record WillOptions : Type 0 where
  pub topic_name : Text
  pub message : Text
  pub qos : ℕ
  pub retained : Bool

pub record SslOptions : Type 0 where
  pub enable_server_cert_auth : Bool
  pub trust_store : Option Text

-- The fields that the wrapper sets; a text that is `none` is a null pointer.
pub record ConnectOptions : Type 0 where
  pub keep_alive_interval : ℕ
  pub cleansession : Bool
  pub username : Option Text
  pub password : Option Text
  pub will : Option WillOptions
  pub ssl : Option SslOptions

-- The Paho client: a call gives its return code, 0 for success.
pub record Paho : Type 1 where
  pub Handle : Type 0
  pub create : Text → Text → ℕ × Handle
  pub connect : ConnectOptions → Handle → ℕ × Handle
  pub disconnect : ℕ → Handle → Handle
  pub is_connected : Handle → Bool
  pub publish_message : Text → Text → ℕ → Bool → Handle → ℕ × Handle
  pub subscribe : Text → ℕ → Handle → ℕ × Handle

abbrev pub mqtt_default_qos : ℕ
mqtt_default_qos = 1

pub record Credentials : Type 0 where
  pub username : Text
  pub password : Text
  pub will_topic : Text
  pub will_payload : Text
  pub keepalive_sec : ℕ

pub record Settings : Type 0 where
  pub broker_uri : Text
  pub client_id : Text
  pub ca_cert_path : Text
  pub reconnect_min_sec : ℕ
  pub reconnect_max_sec : ℕ

-- `s.empty() ? nullptr : s.c_str()`
unfoldable pub pointer : Text → Option Text
pointer s = if is_empty s then none else some s

-- What `connect` and `reconnectLoop` build before they call the client.
unfoldable pub connect_options : Settings → Credentials → ConnectOptions
unfolding pointer
connect_options cfg c = record {
  keep_alive_interval = c.keepalive_sec;
  cleansession = true;
  username = pointer c.username;
  password = pointer c.password;
  will =
      if is_empty c.will_topic
      then none
      else some (record {
        topic_name = c.will_topic;
        message = c.will_payload;
        qos = mqtt_default_qos;
        retained = true;
      });
  ssl =
      if starts_with (text "ssl://") cfg.broker_uri || starts_with (text "tls://") cfg.broker_uri
      then some (record {
        enable_server_cert_auth = not (is_empty cfg.ca_cert_path);
        trust_store = pointer cfg.ca_cert_path;
      })
      else none;
}

-- `reconnect_min_sec_ * (1 << min(attempt, 10))`, bounded.
pub delay : Settings → ℕ → ℕ
delay cfg attempt = min cfg.reconnect_max_sec (cfg.reconnect_min_sec * 2 ^ min attempt 10)

-- A call of a callback of the agent.
pub data Call : Type 0 where
  connected_callback : Call
  connection_lost_callback : Text → Call

unfoldable pub registered : List (Text × ℕ) → Text → Bool
registered [] topic = false
registered ((t, qos) ∷ subs) topic = text_eq t topic || registered subs topic

-- `emplace_back` for a topic that is not there.
unfoldable pub register : List (Text × ℕ) → Text → ℕ → List (Text × ℕ)
unfolding registered
register subs topic qos = if registered subs topic then subs else subs ++ (topic, qos) ∷ []

module _ (paho : Paho) where
  pub record Client : Type 0 where
    pub settings : Settings
    pub client : paho.Handle
    pub connected : Bool
    pub shutdown : Bool
    pub last : Credentials
    pub subscriptions : List (Text × ℕ)
    pub calls : List Call
    -- Whether the log has a sink that publishes its records through this client.
    pub log_publishes : Bool
    -- Whether a call waits for a mutex that its own thread holds: it never returns.
    pub stuck : Bool

  -- The constructor; `none` is the exception for a client that cannot be created.
  unfoldable pub construct : Settings → Option Client
  construct cfg =
      let (rc, handle) = paho.create cfg.broker_uri cfg.client_id in
      if rc == 0
      then some (record {
        settings = cfg;
        client = handle;
        connected = false;
        shutdown = false;
        last = record {
          username = [];
          password = [];
          will_topic = [];
          will_payload = [];
          keepalive_sec = 60;
        };
        subscriptions = [];
        calls = [];
        log_publishes = false;
        stuck = false;
      })
      else none

  -- A record of the log while `pub_mutex_` is held or the client is not connected: the sink publishes
  -- it through the client, which locks that mutex again, or refuses and logs a record in the sink,
  -- whose own mutex is held.
  unfoldable pub log_failure : Client → Client
  log_failure c = if c.log_publishes then record c { stuck = true } else c

  -- The loop over the registered topics: the return codes are ignored.
  unfoldable pub resubscribe : List (Text × ℕ) → paho.Handle → paho.Handle
  resubscribe [] handle = handle
  resubscribe ((topic, qos) ∷ subs) handle = resubscribe subs (paho.subscribe topic qos handle).1

  -- What follows a successful call of the client.
  unfoldable pub on_connected : Client → paho.Handle → Client
  on_connected c handle = record c {
    client = resubscribe c.subscriptions handle;
    connected = true;
    calls = c.calls ++ connected_callback ∷ [];
  }

  unfoldable pub connect : Client → Credentials → Bool × Client
  connect c credentials =
      let c₁ = record c { last = credentials } in
      let (rc, handle) = paho.connect (connect_options c.settings credentials) c.client in
      if rc == 0 then (true, on_connected c₁ handle) else (false, record c₁ { client = handle })

  unfoldable pub disconnect : Client → Client
  unfolding log_failure
  disconnect c =
      if c.connected
      then log_failure (record c { client = paho.disconnect 5000 c.client; connected = false })
      else c

  unfoldable pub is_connected : Client → Bool
  is_connected c = c.connected && paho.is_connected c.client

  -- The destructor, before the client is destroyed.
  pub destruct : Client → Client
  unfolding disconnect
  destruct c = disconnect (record c { shutdown = true })

  unfoldable pub publish : Client → Text → Text → ℕ → Bool → Bool × Client
  unfolding is_connected log_failure
  publish c topic payload qos retained =
      let (rc, handle) = paho.publish_message topic payload qos retained c.client in
      let c₁ = record c { client = handle } in
      if is_connected c
      then if rc == 0 then (true, c₁) else (false, log_failure c₁)
      else (false, log_failure c)

  unfoldable pub subscribe : Client → Text → ℕ → Bool × Client
  unfolding is_connected log_failure
  subscribe c topic qos =
      let c₁ = record c { subscriptions = register c.subscriptions topic qos } in
      let (rc, handle) = paho.subscribe topic qos c.client in
      if is_connected c then (rc == 0, record c₁ { client = handle }) else (false, log_failure c₁)

  -- The client, and whether a thread with the reconnection loop is started; `none` is a cause that
  -- is a null pointer.
  unfoldable pub on_connection_lost : Client → Option Text → Client × Bool
  on_connection_lost c cause =
      let reason : Text = elim cause [ none ↦ text "unknown" | some r ↦ r ] in
      (
        record c { connected = false; calls = c.calls ++ connection_lost_callback reason ∷ [] },
        not c.shutdown,
      )

  -- How the reconnection loop ends, with the seconds that it slept.
  pub data Ending : Type 0 where
    reconnected : Client → ℕ → Ending
    stopped : Client → ℕ → Ending
    out_of_fuel : Ending

  -- The loop, on fuel. The flag `shutdown_`, which another thread sets, reads as `shutdown_after n`
  -- after the sleep of attempt n, and no other thread connects.
  pub reconnect_loop : (ℕ → Bool) → ℕ → Client → ℕ → ℕ → Ending
  reconnect_loop shutdown_after zero c attempt slept = out_of_fuel
  reconnect_loop shutdown_after (suc fuel) c attempt slept =
      let slept' = slept + delay c.settings attempt in
      let (rc, handle) = paho.connect (connect_options c.settings c.last) c.client in
      let c₁ = log_failure c in
      let again =
        reconnect_loop shutdown_after fuel (record c₁ { client = handle }) (attempt + 1) slept' in
      if c.shutdown || c.connected
      then stopped c slept
      else if shutdown_after attempt
      then stopped (record c₁ { shutdown = true }) slept'
      else if rc == 0
      then reconnected (on_connected c₁ handle) slept'
      else again
