-- ===== src/LogCollector.antt =====
-- src/services/LogCollector.cpp: log entries from the plugins or from the system's log, in batches, to MQTT
-- or to the buffer. The clock, the log of the system and the two functions that take a
-- payload are parameters.
pub mod System
pub mod Batches
pub mod Levels
pub mod Wiring
pub mod Tests
use orbis_agent_desktop.Base.{
  ℕ, zero, suc, ◌+◌, ◌-◌, min, Bool, true, false, ◌||◌, List, [], ◌∷◌, ◌++◌, Option, none, some,
  Text, text, text_eq, is_empty, if◌then◌else◌, length, take, drop, flatten, map, leb, ltb,
}
use orbis_agent_desktop.Base.Int.{ℤ, pos, negsuc}
use orbis_agent_desktop.Base.Stoi.{stoi}
use orbis_agent_desktop.Json.{JsonLib, Result, ok, err}
use orbis_agent_desktop.Plugins.{PluginLogEntry, LoadedPlugin, Collected, CollectAll, collect_all}
use System.{LogEntry, Settings, level_allowed, SystemLog, collect_from_system}
use orbis_agent_desktop.Topics.{topic_for, topic_logs_fmt}

abbrev pub log_batch_max : ℕ
log_batch_max = 100

-- The callback that the loader calls, on the entries of all its calls; `n` entries came before.
from_plugins : Settings → ℕ → List PluginLogEntry → List LogEntry
from_plugins cfg n [] = []
from_plugins cfg n (pe ∷ pes) =
    let skipped = from_plugins cfg n pes in
    let rest = from_plugins cfg (n + 1) pes in
    if level_allowed cfg.log_levels pe.level
    then record {
      device_id = cfg.device_id;
      timestamp = cfg.now n;
      level = pe.level;
      source = pe.source;
      message = pe.message;
      metadata_json = pe.metadata_json;
    }
      ∷ rest
    else skipped

-- How a round ends: `threw` is the exception of `dump`.
pub data Ending : Type 0 where
  finished : Ending
  threw : Text → Ending
  out_of_fuel : Ending

module _ (json : JsonLib) where
  pub collect_from_plugins :
      Settings
      → (LoadedPlugin → Collected)
      → Option (List LoadedPlugin)
      → List LogEntry × Option (List LoadedPlugin)
  unfolding from_plugins
  collect_from_plugins cfg collect none = ([], none)
  collect_from_plugins cfg collect (some plugins) =
      let r = collect_all json collect plugins in
      (from_plugins cfg 0 (flatten r.batches), some r.plugins)

  -- The entries of a round: the log of the system is read only where there is no loader.
  pub gather :
      Settings
      → (LoadedPlugin → Collected)
      → SystemLog
      → Option (List LoadedPlugin)
      → List LogEntry × Option (List LoadedPlugin)
  gather cfg collect system none = (collect_from_system json cfg system, none)
  gather cfg collect system (some plugins) = collect_from_plugins cfg collect (some plugins)

  metadata_of : Text → json.Value
  metadata_of s = elim (json.parse s) [ err what ↦ json.object [] | ok v ↦ v ]

  pub item : LogEntry → json.Value
  unfolding metadata_of
  item e = json.object (
      (text "device_id", json.of_text e.device_id)
      ∷ (text "timestamp", json.of_text e.timestamp)
      ∷ (text "level", json.of_text e.level)
      ∷ (text "source", json.of_text e.source)
      ∷ (text "message", json.of_text e.message)
      ∷ (text "metadata", metadata_of e.metadata_json)
      ∷ [])

  -- The functions that take a payload act on the world.
  module _ {W : Type 0} (publish_fn : W → Text → Text → Bool × W)
      (store_fn : W → Text → Text → W) where
    pub send : Text → Text → W → W
    send topic payload w =
        let (published, w') = publish_fn w topic payload in
        if published then w' else store_fn w' topic payload

    -- The loop over `start`, on fuel.
    pub publish_loop : ℕ → Text → List LogEntry → ℕ → W → W × Ending
    publish_loop zero topic entries start w = (w, out_of_fuel)
    publish_loop (suc fuel) topic entries start w =
        let end = min (start + log_batch_max) (length entries) in
        let batch = json.array (map item (take (end - start) (drop start entries))) in
        let dumped : W × Ending = elim (json.dump batch) [
          | err what ↦ (w, threw what)
          | ok payload ↦
              publish_loop fuel topic entries (start + log_batch_max) (send topic payload w)
        ] in
        if ltb start (length entries) then dumped else (w, finished)

    -- The world after the round, how it ended, and the loader.
    pub collect_and_publish :
        Settings
        → (LoadedPlugin → Collected)
        → SystemLog
        → Option (List LoadedPlugin)
        → W
        → (W × Ending) × Option (List LoadedPlugin)
    collect_and_publish cfg collect system loader w =
        let (entries, loader') = gather cfg collect system loader in
        (
          publish_loop (suc (length entries)) (topic_for topic_logs_fmt cfg.device_id) entries 0 w,
          loader',
        )
