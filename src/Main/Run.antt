-- ===== src/Main/Run.antt =====
-- A normal run of src/main.cpp: from the configuration to the services, the loop of the watchdog, and the
-- stop of the services. What the system and the threads do is given: the answers of the broker, which
-- threads end between two turns of the watchdog, and what each thread still publishes while it is
-- stopped. The log, also what its sink publishes, the signals, and what follows the stop (the last flush
-- and the end of the connection) are not modelled; a number of seconds in the configuration that is
-- negative counts as 0.
pub mod Blocked
pub mod Joining
pub mod Starting
pub mod Tests
use orbis_agent_desktop.Base.{
  ℕ, Bool, true, false, List, [], ◌∷◌, ◌++◌, Option, none, some, Text, text, if◌then◌else◌,
}
use orbis_agent_desktop.Base.Decimal.{to_text}
use orbis_agent_desktop.Base.Int.{ℤ, pos, pos_part}
use orbis_agent_desktop.Json.{JsonLib, Result, ok, err}
use orbis_agent_desktop.Config.{
  Toml, ConfigManager, MqttConfig, LoadResult, loaded, not_parsed, threw, load, is_registered,
  get_token,
}
use orbis_agent_desktop.Config.Token.{Crypto}
use orbis_agent_desktop.Executor.{agent_version}
use orbis_agent_desktop.LocalBuffer.{init_db, flush, Progress}
use orbis_agent_desktop.LocalBuffer as LocalBuffer
use orbis_agent_desktop.LocalBuffer.Database.{Sqlite}
use orbis_agent_desktop.Main.Delivery.{Message, mqtt_publish, publish_all}
use orbis_agent_desktop.Main.Onboarding.{
  Attempt, State, Exit, left, shut_down, terminated, trying, onboarding_loop,
}
use orbis_agent_desktop.Mqtt.{
  Paho, Client, Settings, Credentials, construct, connect, disconnect, is_connected,
  mqtt_default_qos,
}
use orbis_agent_desktop.Mqtt as Mqtt
use orbis_agent_desktop.Plugins.{LoadedPlugin, Entry, load_all, unload_all}
use orbis_agent_desktop.Service.{Service}
use orbis_agent_desktop.Service as Service
use orbis_agent_desktop.Topics.{topic_for, topic_status_fmt, topic_commands_fmt, topic_update_fmt}

unfoldable pub broker_uri : MqttConfig → Text
broker_uri m =
    (if m.use_tls then text "ssl://" else text "tcp://")
    ++ (m.broker_host ++ (text ":" ++ to_text m.broker_port))

-- The settings of a client whose id is a prefix and the device's id.
unfoldable pub client_settings : ConfigManager → Text → Settings
client_settings cfg prefix = record {
  broker_uri = broker_uri cfg.mqtt;
  client_id = prefix ++ cfg.device_id;
  ca_cert_path = cfg.mqtt.ca_cert_path;
  reconnect_min_sec = pos_part cfg.mqtt.reconnect_delay_min_sec;
  reconnect_max_sec = pos_part cfg.mqtt.reconnect_delay_max_sec;
}

-- What the threads of the services still publish before they end; `beats` are the payloads of the
-- heartbeat, the last of them the offline status.
pub record Last : Type 0 where
  pub executor : List Message
  pub scanner : List Message
  pub collector : List Message
  pub beats : List Text

-- The services that the watchdog looks at.
pub data Part : Type 0 where
  heartbeat_part log_collector_part net_scanner_part : Part

pub map_service : (Service → Service) → Option Service → Option Service
map_service f none = none
map_service f (some s) = some (f s)

module _ (paho : Paho) where
  -- What the heartbeat publishes through `publish_retained`, which does not buffer.
  pub beats_of : Text → List Text → Client paho → Client paho
  beats_of topic [] c = c
  beats_of topic (payload ∷ payloads) c =
      beats_of topic payloads (Mqtt.publish paho c topic payload mqtt_default_qos true).1

module _ (paho : Paho) (sqlite : Sqlite) where
  pub record Agent : Type 0 where
    pub heartbeat : Service
    pub log_collector : Service
    pub net_scanner : Option Service
    pub cmd_executor : Service
    pub plugins : List LoadedPlugin
    pub mqtt : Client paho
    pub db : sqlite.Db

  -- `CommandExecutor::start`
  unfoldable pub executor_start : Text → Agent → Agent
  executor_start device_id a =
      let c₁ =
        (Mqtt.subscribe paho a.mqtt (topic_for topic_commands_fmt device_id) mqtt_default_qos).1 in
      let c₂ = (Mqtt.subscribe paho c₁ (topic_for topic_update_fmt device_id) mqtt_default_qos).1 in
      if a.cmd_executor.running
      then a
      else record a { cmd_executor = Service.start a.cmd_executor; mqtt = c₂ }

  -- The services are made, and started in this order.
  unfoldable pub start_services : Text → Bool → List LoadedPlugin → Client paho → sqlite.Db → Agent
  unfolding executor_start map_service
  start_services device_id scans plugins mqtt db =
      let a = executor_start device_id (record {
        heartbeat = Service.start Service.construct;
        log_collector = Service.start Service.construct;
        net_scanner = if scans then some Service.construct else none;
        cmd_executor = Service.construct;
        plugins = plugins;
        mqtt = mqtt;
        db = db;
      }) in
      record a { net_scanner = map_service Service.start a.net_scanner }

  -- The sink of the log that publishes through the client.
  unfoldable pub attach_sink : Agent → Agent
  attach_sink a = record a { mqtt = record a.mqtt { log_publishes = true } }

  pub thread_ends : Part → Agent → Agent
  unfolding map_service
  thread_ends heartbeat_part a = record a { heartbeat = Service.thread_ends a.heartbeat }
  thread_ends log_collector_part a = record a {
    log_collector = Service.thread_ends a.log_collector;
  }
  thread_ends net_scanner_part a = record a {
    net_scanner = map_service Service.thread_ends a.net_scanner;
  }

  pub threads_end : List Part → Agent → Agent
  unfolding thread_ends
  threads_end [] a = a
  threads_end (p ∷ ps) a = threads_end ps (thread_ends p a)

  -- A turn of the watchdog's loop.
  pub watch_all : Agent → Agent
  unfolding map_service
  watch_all a = record a {
    heartbeat = Service.watch a.heartbeat;
    log_collector = Service.watch a.log_collector;
    net_scanner = map_service Service.watch a.net_scanner;
  }

  -- The loop, until the shutdown flag: for each turn, the threads that ended before it.
  pub watchdog : List (List Part) → Agent → Agent
  watchdog [] a = a
  watchdog (ends ∷ turns) a = watchdog turns (watch_all (threads_end ends a))

  -- What a service publishes through `publish`.
  pub publishes : List Message → Agent → Agent
  publishes ms a =
      let s = publish_all paho sqlite (a.mqtt, a.db) ms in record a { mqtt = s.0; db = s.1 }

  -- The services are stopped in this order; each `stop` waits for the thread.
  pub stop_services : Text → Last → Agent → Agent
  unfolding publishes map_service
  stop_services device_id last a =
      let a₁ = publishes last.executor (record a { cmd_executor = Service.stop a.cmd_executor }) in
      let a₂ =
        publishes last.scanner
          (record a₁ { net_scanner = map_service Service.stop a₁.net_scanner }) in
      let a₃ =
        publishes last.collector (record a₂ { log_collector = Service.stop a₂.log_collector }) in
      record a₃ {
        heartbeat = Service.stop a₃.heartbeat;
        mqtt = beats_of paho (topic_for topic_status_fmt device_id) last.beats a₃.mqtt;
        plugins = (unload_all a₃.plugins).0;
      }
