-- ===== src/Main/Run/Starting.antt =====
-- The way of src/main.cpp to the services, and what holds when they run.
use orbis_agent_desktop.Base.{
  ℕ, ◌≡◌, refl, ◌∙◌, subst, Bool, true, List, [], ◌∷◌, Option, none, some, Text, text,
  if◌then◌else◌, Bool-cases, Option-cases, inl, inr, is_empty,
}
use orbis_agent_desktop.Base.Int.{pos, pos_part}
use orbis_agent_desktop.Json.{JsonLib, Result, ok, err}
use orbis_agent_desktop.Config.{
  Toml, ConfigManager, LoadResult, loaded, not_parsed, load, is_registered, get_token,
}
use orbis_agent_desktop.Config as Config
use orbis_agent_desktop.Config.Token.{Crypto}
use orbis_agent_desktop.Executor.{agent_version}
use orbis_agent_desktop.LocalBuffer.{init_db}
use orbis_agent_desktop.LocalBuffer as LocalBuffer
use orbis_agent_desktop.LocalBuffer.Database.{Sqlite}
use orbis_agent_desktop.Main.Onboarding.{
  Attempt, State, Exit, left, shut_down, terminated, trying, onboarding_loop,
}
use orbis_agent_desktop.Main.Run.{
  Agent, client_settings, start_services, executor_start, attach_sink,
}
use orbis_agent_desktop.Mqtt.{
  Paho, Client, Credentials, ConnectOptions, connect_options, construct, connect, registered,
  mqtt_default_qos, subscribe,
}
use orbis_agent_desktop.Mqtt.Subscriptions.{
  subscribe_lem, connect_lem, registered-register, registered_stays,
}
use orbis_agent_desktop.Mqtt as Mqtt
use orbis_agent_desktop.Plugins.{Entry, LoadedPlugin, load_all}
use orbis_agent_desktop.Service as Service
use orbis_agent_desktop.Topics.{
  topic_for, topic_for-status, device_topic, topic_status_fmt, topic_commands_fmt, topic_update_fmt,
}

-- What a run meets on its way to the services; `attempts` and `shutdown_at` are those of the onboarding,
-- and `shutdown_then` the shutdown flag after it.
pub record Start : Type 1 where
  pub config_path : Text
  pub uuid : Text
  pub directories_made : Bool
  pub attempts : List Attempt
  pub shutdown_at : ℕ → Bool
  pub shutdown_then : Bool
  pub plugin_entries : Option (List Entry)
  pub timestamp : Text

module _ (json : JsonLib) (crypto : Crypto) (expand : Text → Text → Text) (toml : Toml)
    (paho : Paho) (sqlite : Sqlite) where
  -- The exit code, an exception that ends the process, an onboarding that has used up its attempts, and
  -- the agent with its services.
  pub data Ending : Type 0 where
    exits : ℕ → Ending
    threw : Ending
    onboarding : Ending
    runs : State → Agent paho sqlite → Ending

  -- The document of the last will.
  unfoldable pub will_doc : Text → Text → json.Value
  will_doc timestamp device_id = json.object (
      (text "device_id", json.of_text device_id)
      ∷ (text "timestamp", json.of_text timestamp)
      ∷ (text "status", json.of_text (text "offline"))
      ∷ (text "version", json.of_text agent_version)
      ∷ (text "uptime_sec", json.of_int (pos 0))
      ∷ [])

  unfoldable pub credentials : ConfigManager → Text → Credentials
  credentials cfg will_payload = record {
    username = cfg.device_id;
    password = get_token crypto cfg;
    will_topic = topic_for topic_status_fmt cfg.device_id;
    will_payload = will_payload;
    keepalive_sec = pos_part cfg.mqtt.keepalive_sec;
  }

  -- Steps 7 and 8.
  unfoldable pub connect_and_start :
      State → List LoadedPlugin → Client paho → sqlite.Db → Result Text → Ending
  unfolding attach_sink
  connect_and_start s plugins mqtt db (err what) = threw
  connect_and_start s plugins mqtt db (ok will_payload) =
      let cfg = s.config in
      let (connected, mqtt') = connect paho mqtt (credentials cfg will_payload) in
      if connected
      then runs s (
          attach_sink paho sqlite
            (start_services paho sqlite cfg.device_id cfg.scanner.enabled plugins mqtt' db))
      else exits 1

  -- Steps 6 to 8.
  unfoldable pub go : Start → Client paho → sqlite.Db → State → Ending
  unfolding connect_and_start will_doc
  go st mqtt db s =
      let plugins = if s.config.plugins.enabled then (load_all [] st.plugin_entries).0 else [] in
      connect_and_start s plugins mqtt db (json.dump (will_doc st.timestamp s.config.device_id))

  -- What follows the loop of the onboarding.
  pub after_onboarding : Start → Client paho → sqlite.Db → Exit → Ending
  unfolding go
  after_onboarding st mqtt db (left retry slept s) =
      if st.shutdown_then
      then exits 0
      else if is_registered s.config
      then go st mqtt db s
      else exits 1
  after_onboarding st mqtt db (shut_down s) = exits 0
  after_onboarding st mqtt db (terminated s) = threw
  after_onboarding st mqtt db (trying s) = onboarding

  -- Step 5.
  unfoldable pub onboard : Start → State → Client paho → sqlite.Db → Ending
  unfolding after_onboarding go
  onboard st s mqtt db =
      let cfg = s.config in
      if is_registered cfg
      then go st mqtt db s
      else after_onboarding st mqtt db (
          onboarding_loop json crypto expand st.shutdown_at
            (client_settings cfg (text "orbis-register-desktop-")) cfg.device_id
            cfg.mqtt.register_secret 0 0 s st.attempts)

  -- Steps 3 to 8.
  unfoldable pub prepare : Start → State → Ending
  unfolding onboard
  prepare st s =
      if st.directories_made
      then elim (construct paho (client_settings s.config (text "orbis-agent-desktop-"))) [
        | none ↦ threw
        | some mqtt ↦ elim (init_db sqlite s.config.buffer_db) [
          | LocalBuffer.err e ↦ threw
          | LocalBuffer.ok db ↦ onboard st s mqtt db
        ]
      ]
      else threw

  -- The normal run, up to the services.
  unfoldable pub normal_run : Start → State → Ending
  unfolding prepare
  normal_run st s =
      let (cfg, result) = load toml s.config st.config_path st.uuid in
      elim result [
        | loaded ↦ prepare st (record s { config = cfg })
        | not_parsed ↦ exits 1
        | Config.threw ↦ threw
      ]

  -- A text that a call of the client takes as a null pointer where it is empty.
  abbrev pub given : Text → Option Text
  given s = if is_empty s then none else some s

  -- The broker has accepted a connection as a user with a password, and with a last will of this topic and
  -- document, retained and with quality of service 1.
  abbrev pub Accepted : Text → Text → Text → Text → Type 0
  Accepted user password topic payload =
      (options : ConnectOptions) × (h : paho.Handle) × ((paho.connect options h).0 ≡ 0)
      × (options.username ≡ given user)
      × (options.password ≡ given password)
      × (options.will
          ≡ some (record { topic_name = topic; message = payload; qos = 1; retained = true }))

  -- What holds when the services of an agent have been started.
  pub record Running (s : State) (a : Agent paho sqlite) : Type 0 where
    pub is_registered : is_registered s.config ≡ true
    pub connected : a.mqtt.connected ≡ true
    pub log_publishes : a.mqtt.log_publishes ≡ true
    pub will_payload : Text
    pub timestamp : Text
    pub will_of_device : json.dump (will_doc timestamp s.config.device_id) ≡ ok will_payload
    pub remembered : a.mqtt.last ≡ credentials s.config will_payload
    pub accepted :
        Accepted s.config.device_id
          (get_token crypto s.config)
          (device_topic s.config.device_id (text "/status"))
          will_payload
    pub commands :
        registered a.mqtt.subscriptions (topic_for topic_commands_fmt s.config.device_id) ≡ true
    pub updates :
        registered a.mqtt.subscriptions (topic_for topic_update_fmt s.config.device_id) ≡ true

  -- The client after the two subscriptions of the executor.
  abbrev pub Listening : Text → Client paho → Client paho → Type 0
  Listening device_id c c' =
      (c'.connected ≡ c.connected)
      × (c'.last ≡ c.last)
      × (registered c'.subscriptions (topic_for topic_commands_fmt device_id) ≡ true)
      × (registered c'.subscriptions (topic_for topic_update_fmt device_id) ≡ true)

  start_services-Listening :
      (device_id : Text) (scans : Bool) (plugins : List LoadedPlugin) (c : Client paho)
      (db : sqlite.Db)
      → Listening device_id c (start_services paho sqlite device_id scans plugins c db).mqtt
  unfolding start_services executor_start Service.construct
  start_services-Listening device_id scans plugins c db =
      let commands = topic_for topic_commands_fmt device_id in
      let updates = topic_for topic_update_fmt device_id in
      let c₁ = (subscribe paho c commands mqtt_default_qos).1 in
      let (on₁, last₁, subs₁) = subscribe_lem paho c commands mqtt_default_qos in
      let (on₂, last₂, subs₂) = subscribe_lem paho c₁ updates mqtt_default_qos in
      (
        on₂ ∙ on₁,
        last₂ ∙ last₁,
        rw subs₂ (
            registered_stays c₁.subscriptions commands updates mqtt_default_qos
              (rw subs₁ (registered-register c.subscriptions commands mqtt_default_qos))),
        rw subs₂ (registered-register c₁.subscriptions updates mqtt_default_qos),
      )

  -- An ending that is a running agent is sound.
  abbrev Sound : Ending → Type 0
  Sound (exits code) = Unit {0}
  Sound threw = Unit {0}
  Sound onboarding = Unit {0}
  Sound (runs s a) = Running s a

  connect_and_start-Sound :
      (s : State) (plugins : List LoadedPlugin) (mqtt : Client paho) (db : sqlite.Db)
      (will : Result Text) (timestamp : Text)
      → json.dump (will_doc timestamp s.config.device_id) ≡ will
      → is_registered s.config ≡ true
      → Sound (connect_and_start s plugins mqtt db will)
  unfolding connect_and_start attach_sink credentials connect_options Mqtt.pointer text
  connect_and_start-Sound s plugins mqtt db (err what) timestamp doc reg = tt
  connect_and_start-Sound s plugins mqtt db (ok will_payload) timestamp doc reg =
      let cr = credentials s.config will_payload in
      let c = (connect paho mqtt cr).1 in
      elim (Bool-cases (connect paho mqtt cr).0) [
        | inr off ↦ rw off tt
        | inl on ↦
            let (connected, last, rc) = connect_lem paho mqtt cr on in
            let (still, kept, commands, updates) : Listening s.config.device_id c
                (start_services paho sqlite s.config.device_id s.config.scanner.enabled plugins c
                  db).mqtt =
              start_services-Listening s.config.device_id s.config.scanner.enabled plugins c db in
            rw on (record {
              is_registered = reg;
              connected = still ∙ connected;
              log_publishes = refl;
              will_payload = will_payload;
              timestamp = timestamp;
              will_of_device = doc;
              remembered = kept ∙ last;
              accepted = (
                connect_options mqtt.settings cr,
                mqtt.client,
                rc,
                refl,
                refl,
                rw (topic_for-status s.config.device_id) refl,
              );
              commands = commands;
              updates = updates;
            })
      ]

  go-Sound :
      (st : Start) (mqtt : Client paho) (db : sqlite.Db) (s : State)
      → is_registered s.config ≡ true
      → Sound (go st mqtt db s)
  unfolding go
  go-Sound st mqtt db s reg = connect_and_start-Sound s _ mqtt db _ st.timestamp refl reg

  after_onboarding-Sound :
      (st : Start) (mqtt : Client paho) (db : sqlite.Db) (e : Exit)
      → Sound (after_onboarding st mqtt db e)
  unfolding after_onboarding
  after_onboarding-Sound st mqtt db (left retry slept s) = elim (Bool-cases st.shutdown_then) [
    | inl stop ↦ rw stop tt
    | inr on ↦ elim (Bool-cases (is_registered s.config)) [
      | inl reg ↦ rw on (rw reg (go-Sound st mqtt db s reg))
      | inr no_reg ↦ rw on (rw no_reg tt)
    ]
  ]
  after_onboarding-Sound st mqtt db (shut_down s) = tt
  after_onboarding-Sound st mqtt db (terminated s) = tt
  after_onboarding-Sound st mqtt db (trying s) = tt

  onboard-Sound :
      (st : Start) (s : State) (mqtt : Client paho) (db : sqlite.Db) → Sound (onboard st s mqtt db)
  unfolding onboard
  onboard-Sound st s mqtt db = elim (Bool-cases (is_registered s.config)) [
    | inl reg ↦ rw reg (go-Sound st mqtt db s reg)
    | inr no_reg ↦ rw no_reg (after_onboarding-Sound st mqtt db _)
  ]

  prepare-Sound : (st : Start) (s : State) → Sound (prepare st s)
  unfolding prepare
  prepare-Sound st s = elim (Bool-cases st.directories_made) [
    | inr d ↦ rw d tt
    | inl d ↦
        rw d
          (elim (Option-cases
            (construct paho (client_settings s.config (text "orbis-agent-desktop-")))) [
              | inl e ↦ rw (e, prepare) tt
              | inr (mqtt, e) ↦ rw (e, prepare) (go mqtt (init_db sqlite s.config.buffer_db) refl)
            ])
  ]
    where
      go :
          (mqtt : Client paho) (r : LocalBuffer.Result sqlite.Db)
          → init_db sqlite s.config.buffer_db ≡ r
          → Sound (elim (init_db sqlite s.config.buffer_db) [
            | LocalBuffer.err e ↦ threw
            | LocalBuffer.ok db ↦ onboard st s mqtt db
          ])
      go mqtt (LocalBuffer.err x) e = rw e tt
      go mqtt (LocalBuffer.ok db) e = rw e (onboard-Sound st s mqtt db)

  normal_run-Sound : (st : Start) (s : State) → Sound (normal_run st s)
  unfolding normal_run
  normal_run-Sound st s = after_load (load toml s.config st.config_path st.uuid).1 refl
    where
      after_load :
          (r : LoadResult)
          → (load toml s.config st.config_path st.uuid).1 ≡ r
          → Sound (normal_run st s)
      after_load loaded e = rw (e, normal_run) (prepare-Sound st _)
      after_load not_parsed e = rw (e, normal_run) tt
      after_load Config.threw e = rw (e, normal_run) tt

  -- Where a normal run comes to its services, whatever the files, the broker and the onboarding gave: the
  -- device is registered; the client is connected, and the broker has accepted a connection as the
  -- device, with its token and with a last will on its status topic that says that it is offline; the
  -- topics of its commands and updates are registered, so that every reconnection subscribes to them;
  -- and the log is published through the client.
  pub normal_run-Running :
      (st : Start) (s s' : State) (a : Agent paho sqlite)
      → normal_run st s ≡ runs s' a
      → Running s' a
  normal_run-Running st s s' a e = subst Sound e (normal_run-Sound st s)
