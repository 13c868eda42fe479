-- ===== src/Main/Run/Tests.antt =====
-- The run of src/main.cpp with a broker that keeps a list of what it has got.
use orbis_agent_desktop.Base.{
  ◌≡◌, refl, Bool, true, false, [], ◌∷◌, none, some, Text, text, text_eq, if◌then◌else◌,
}
use orbis_agent_desktop.Config.{Toml, absent, load, is_registered, load_scanner, load_plugins}
use orbis_agent_desktop.Config.Tests.{toy_crypto, fresh}
use orbis_agent_desktop.Executor.Tests.{lenient}
use orbis_agent_desktop.LocalBuffer.{init_db}
use orbis_agent_desktop.LocalBuffer.Tests.{table_db, two_rows, empty_table}
use orbis_agent_desktop.Main.Delivery.Tests.{listing, client, messages}
use orbis_agent_desktop.Main.Onboarding.{State}
use orbis_agent_desktop.Main.Run.{
  Agent, Last, attach_sink, heartbeat_part, start_services, watchdog, stop_services,
  client_settings,
}
use orbis_agent_desktop.Mqtt.Subscriptions.{loses_connection, run}
use orbis_agent_desktop.Main.Run.Joining.{Each, run-Quiet}
use orbis_agent_desktop.Main.Run.Starting.{
  Start, runs, Running, normal_run, normal_run-Running, credentials, will_doc,
}
use orbis_agent_desktop.Mqtt.{Client, construct, connect}
use orbis_agent_desktop.Service.Watchdog.{Joined, Quiet}

abbrev id : Text
id = text "d"

abbrev last : Last
last = record { executor = []; scanner = []; collector = messages; beats = text "off" ∷ [] }

abbrev agent : Bool → Agent listing table_db
agent up = start_services listing table_db id true [] (client up) two_rows

run-Quiet_example :
    let a = watchdog listing table_db ((heartbeat_part ∷ []) ∷ [] ∷ []) (agent true) in
    Each listing table_db Joined a
    × Each listing table_db Quiet (stop_services listing table_db id last a)
run-Quiet_example =
    run-Quiet listing table_db id true [] (client true) two_rows ((heartbeat_part ∷ []) ∷ [] ∷ [])
      last

-- A configuration with an id and a token.
abbrev toml : Toml
toml = record {
  Table = Unit {0};
  parse = λ path. some tt;
  find_text = λ t section key d.
      if text_eq key (text "device_id")
      then id
      else if text_eq key (text "token")
      then text "x"
      else d;
  find_int = λ t s k d. d;
  find_bool = λ t section key d. text_eq key (text "use_tls");
  find_array = λ t s k. absent;
}

abbrev st : Start
st = record {
  config_path = text "c";
  uuid = text "u";
  directories_made = true;
  attempts = [];
  shutdown_at = λ n. false;
  shutdown_then = false;
  plugin_entries = none;
  timestamp = text "now";
}

abbrev blank : State
blank = record { config = fresh; files = λ p. none }

abbrev loaded_state : State
loaded_state = record blank { config = (load toml fresh (text "c") (text "u")).0 }

-- The client that the settings give, connected.
abbrev connected : Client listing
connected =
    (connect listing
      (record (client false) {
        settings = client_settings loaded_state.config (text "orbis-agent-desktop-");
        last = record {
          username = [];
          password = [];
          will_topic = [];
          will_payload = [];
          keepalive_sec = 60;
        };
      })
      (credentials lenient toy_crypto (λ p q. p) toml listing table_db loaded_state.config
        (will_doc lenient toy_crypto (λ p q. p) toml listing table_db (text "now") id))).1

reaches :
    normal_run lenient toy_crypto (λ p q. p) toml listing table_db st blank
    ≡ runs loaded_state (
        attach_sink listing table_db
          (start_services listing table_db id false [] connected empty_table))
unfolding normal_run attach_sink text load construct init_db is_registered text_eq connect
    load_scanner load_plugins
reaches = refl

normal_run-Running_example :
    Running lenient toy_crypto
      (λ p q. p)
      toml
      listing
      table_db
      loaded_state
      (attach_sink listing table_db
        (start_services listing table_db id false [] connected empty_table))
normal_run-Running_example =
    normal_run-Running lenient toy_crypto (λ p q. p) toml listing table_db st blank loaded_state
      (attach_sink listing table_db
        (start_services listing table_db id false [] connected empty_table))
      reaches

abbrev running_agent : Agent listing table_db
running_agent =
    attach_sink listing table_db (start_services listing table_db id false [] connected empty_table)

-- Its client after it has lost its connection.
abbrev lost : Client listing
lost = run listing running_agent.mqtt (loses_connection none ∷ [])
