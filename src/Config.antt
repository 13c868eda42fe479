-- ===== src/Config.antt =====
-- src/config/ConfigManager.hpp and ConfigManager.cpp: the configuration of the agent. The mutex makes
-- each method one step. TOML files are parsed by a library, which is a parameter.
pub mod Base64
pub mod Token
pub mod Save
pub mod Registration
pub mod Tests
use orbis_agent_desktop.Base.{
  ℕ, ◌≡◌, Bool, true, false, ◌&&◌, not, List, [], ◌∷◌, Option, none, some, Text, text,
  if◌then◌else◌, is_empty,
}
use orbis_agent_desktop.Base.Int.{ℤ, pos}
use Token.{ok, err, Crypto, encrypt_token, decrypt_token}

abbrev default_log_path : Text
default_log_path = text "/var/log/orbis-agent.log"

abbrev default_buffer_path : Text
default_buffer_path = text "/var/lib/orbis-agent/buffer.db"

pub record MqttConfig : Type 0 where
  pub broker_host : Text
  pub broker_port : ℤ
  pub use_tls : Bool
  pub ca_cert_path : Text
  pub register_secret : Text
  pub reconnect_delay_min_sec : ℤ
  pub reconnect_delay_max_sec : ℤ
  pub keepalive_sec : ℤ

pub record LogConfig : Type 0 where
  pub interval_sec : ℤ
  pub levels : List Text
  pub sources : List Text

pub record PluginConfig : Type 0 where
  pub enabled : Bool
  pub plugins_dir : Text

pub record NetworkScannerConfig : Type 0 where
  pub enabled : Bool
  pub scan_interval_sec : ℤ
  pub port_range : Text

pub record ConfigManager : Type 0 where
  pub config_path : Text
  pub device_id : Text
  pub token_encrypted : Text
  pub log_file : Text
  pub buffer_db : Text
  pub mqtt : MqttConfig
  pub log : LogConfig
  pub heartbeat_interval_sec : ℤ
  pub plugins : PluginConfig
  pub scanner : NetworkScannerConfig

-- What the TOML library gives for a key of a section: nothing, an array of texts, or an exception at
-- the first element that is no text, after the elements before it.
pub data Lookup : Type 0 where
  absent : Lookup
  present : List Text → Lookup
  wrong_type : List Text → Lookup

pub record Toml : Type 1 where
  pub Table : Type 0
  pub parse : Text → Option Table
  -- A value of a section by its key, or the default.
  pub find_text : Table → Text → Text → Text → Text
  pub find_int : Table → Text → Text → ℤ → ℤ
  pub find_bool : Table → Text → Text → Bool → Bool
  pub find_array : Table → Text → Text → Lookup

-- `true`, `false`, and an exception that leaves `load`.
pub data LoadResult : Type 0 where
  loaded not_parsed threw : LoadResult

-- A list that the file does not give stays as it was. The flag is the exception.
load_list : Lookup → List Text → List Text × Bool
load_list absent old = (old, false)
load_list (present new) old = (new, false)
load_list (wrong_type prefix) old = (prefix, true)

module _ (toml : Toml) where
  open toml use {Table}

  unfoldable pub load_mqtt : Table → MqttConfig
  load_mqtt t = record {
    broker_host = toml.find_text t (text "mqtt") (text "broker_host") (text "localhost");
    broker_port = toml.find_int t (text "mqtt") (text "broker_port") (pos 8883);
    use_tls = toml.find_bool t (text "mqtt") (text "use_tls") true;
    ca_cert_path = toml.find_text t (text "mqtt") (text "ca_cert_path") [];
    register_secret =
        toml.find_text t (text "mqtt") (text "register_secret") (text "orbis_register_secret");
    reconnect_delay_min_sec =
        toml.find_int t (text "mqtt") (text "reconnect_delay_min_sec") (pos 1);
    reconnect_delay_max_sec =
        toml.find_int t (text "mqtt") (text "reconnect_delay_max_sec") (pos 60);
    keepalive_sec = toml.find_int t (text "mqtt") (text "keepalive_sec") (pos 60);
  }

  unfoldable pub load_scanner : Table → NetworkScannerConfig
  load_scanner t = record {
    enabled = toml.find_bool t (text "network_scanner") (text "enabled") false;
    scan_interval_sec =
        toml.find_int t (text "network_scanner") (text "scan_interval_sec") (pos 300);
    port_range =
        toml.find_text t (text "network_scanner") (text "port_range") (text "22,80,443,8080,8883");
  }

  unfoldable pub load_plugins : Table → PluginConfig
  load_plugins t = record {
    enabled = toml.find_bool t (text "plugins") (text "enabled") true;
    plugins_dir = toml.find_text t (text "plugins") (text "plugins_dir") (text "./plugins");
  }

  -- The rest of `load`, once the file is parsed: `uuid` is what `generateUUID` returns. An array of
  -- another type throws after the fields before it have been written.
  unfoldable pub load_table : ConfigManager → Table → Text → ConfigManager × LoadResult
  unfolding load_list
  load_table c t uuid =
      let device_id = toml.find_text t (text "agent") (text "device_id") [] in
      let c₁ = record c {
        device_id = if is_empty device_id then uuid else device_id;
        token_encrypted = toml.find_text t (text "agent") (text "token") [];
        log_file = toml.find_text t (text "agent") (text "log_file") default_log_path;
        buffer_db = toml.find_text t (text "agent") (text "buffer_db") default_buffer_path;
        mqtt = load_mqtt t;
      } in
      let interval = toml.find_int t (text "logs") (text "interval_sec") (pos 60) in
      let (levels, bad_levels) =
        load_list (toml.find_array t (text "logs") (text "levels")) c.log.levels in
      let (sources, bad_sources) =
        load_list (toml.find_array t (text "logs") (text "sources")) c.log.sources in
      if bad_levels
      then (
        record c₁ {
          log = record { interval_sec = interval; levels = levels; sources = c.log.sources };
        },
        threw,
      )
      else if bad_sources
      then (
        record c₁ { log = record { interval_sec = interval; levels = levels; sources = sources } },
        threw,
      )
      else (
        record c₁ {
          log = record { interval_sec = interval; levels = levels; sources = sources };
          heartbeat_interval_sec =
              toml.find_int t (text "heartbeat") (text "interval_sec") (pos 30);
          plugins = load_plugins t;
          scanner = load_scanner t;
        },
        loaded,
      )

  unfoldable pub load : ConfigManager → Text → Text → ConfigManager × LoadResult
  unfolding load_table
  load c path uuid = elim (toml.parse path) [
    | none ↦ (record c { config_path = path }, not_parsed)
    | some t ↦ load_table (record c { config_path = path }) t uuid
  ]

unfoldable pub set_device_id : ConfigManager → Text → ConfigManager
set_device_id c id = record c { device_id = id }

pub get_token : Crypto → ConfigManager → Text
get_token crypto c = decrypt_token crypto c.token_encrypted

-- An exception of `encryptToken` leaves the state as it was; `rand` is what `RAND_bytes` gives.
unfoldable pub set_token : Crypto → Option (List ℕ) → ConfigManager → Text → ConfigManager × Bool
set_token crypto rand c token = elim (encrypt_token crypto rand token) [
  | ok encrypted ↦ (record c { token_encrypted = encrypted }, true)
  | err e ↦ (c, false)
]

unfoldable pub is_registered : ConfigManager → Bool
is_registered c = not (is_empty c.device_id) && not (is_empty c.token_encrypted)
