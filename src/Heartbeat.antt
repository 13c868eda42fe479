-- ===== src/Heartbeat.antt =====
-- src/services/HeartbeatService.cpp: the status that a device publishes, and the loop of the service's
-- thread. What the system measures is a parameter. Time is counted in the seconds that the thread
-- sleeps; the time that a payload takes is not counted.
pub mod Schedule
pub mod Linux
pub mod MacOs
pub mod Windows
pub mod Tests
use orbis_agent_desktop.Base.{
  ℕ, zero, suc, ◌+◌, Bool, true, false, List, [], ◌∷◌, ◌++◌, Option, none, some, Text, text,
  text_eq, if◌then◌else◌, leb,
}
use orbis_agent_desktop.Base.Int.{ℤ, is_negative}
use orbis_agent_desktop.Json.{JsonLib, Result, ok, err}
use orbis_agent_desktop.Executor.{agent_version}
use orbis_agent_desktop.Mqtt.{mqtt_default_qos}
use orbis_agent_desktop.Topics.{topic_for, topic_status_fmt}

pub record Publication : Type 0 where
  pub topic : Text
  pub payload : Text
  pub qos : ℕ
  pub retained : Bool

module _ (json : JsonLib) where
  -- What the functions of the service that ask the system return; the percentages and the flag are
  -- values that the library makes of a `double` and a `bool`.
  pub record Metrics : Type 0 where
    pub timestamp : Text
    pub uptime_sec : ℤ
    pub hostname : Text
    pub plateforme : Text
    pub os_version : Text
    pub architecture : Text
    pub cpu_percent : json.Value
    pub ram_percent : json.Value
    pub disk_percent : json.Value
    pub network_type : Text
    pub battery_level : ℤ
    pub battery_charging : json.Value

  battery_fields : Metrics → List (Text × json.Value)
  battery_fields m =
      if is_negative m.battery_level
      then []
      else (text "battery_level", json.of_int m.battery_level)
        ∷ (text "battery_charging", m.battery_charging)
        ∷ []

  online_fields : Metrics → List (Text × json.Value)
  unfolding battery_fields
  online_fields m =
      (text "cpu_percent", m.cpu_percent)
      ∷ (text "ram_percent", m.ram_percent)
      ∷ (text "disk_percent", m.disk_percent)
      ∷ (text "network_type", json.of_text m.network_type)
      ∷ battery_fields m

  pub status_doc : Text → Metrics → Text → json.Value
  unfolding online_fields
  status_doc device_id m status = json.object (
      (text "device_id", json.of_text device_id)
      ∷ (text "timestamp", json.of_text m.timestamp)
      ∷ (text "status", json.of_text status)
      ∷ (text "version", json.of_text agent_version)
      ∷ (text "uptime_sec", json.of_int m.uptime_sec)
      ∷ (text "hostname", json.of_text m.hostname)
      ∷ (text "plateforme", json.of_text m.plateforme)
      ∷ (text "os_version", json.of_text m.os_version)
      ∷ (text "architecture", json.of_text m.architecture)
      ∷ (if text_eq status (text "online") then online_fields m else []))

  pub build_payload : Text → Metrics → Text → Result Text
  build_payload device_id m status = json.dump (status_doc device_id m status)

  module _ (device_id : Text) (interval_sec : ℕ) (metrics : ℕ → Metrics) where
    pub publication : Text → Publication
    publication payload = record {
      topic = topic_for topic_status_fmt device_id;
      payload = payload;
      qos = mqtt_default_qos;
      retained = true;
    }

    -- The calls of `publish_fn_` at a time; an exception is caught, and the result is not used.
    pub beat : ℕ → Text → List Publication
    beat now status = elim (build_payload device_id (metrics now) status) [
      | err what ↦ []
      | ok payload ↦ publication payload ∷ []
    ]

    -- The stop is requested from the second `stop` on. The loop that sleeps, with the seconds that are
    -- left, gives the time at which it ends.
    pub sleep : ℕ → ℕ → ℕ → ℕ
    sleep stop zero now = now
    sleep stop (suc left) now =
        let later = sleep stop left (now + 1) in if leb stop now then now else later

    -- `while (!stop_requested_)`, on fuel: the time at which it ends, and the publications.
    pub run_loop : ℕ → ℕ → ℕ → Option (ℕ × List Publication)
    run_loop stop zero now = none
    run_loop stop (suc fuel) now =
        let rest = run_loop stop fuel (sleep stop interval_sec now) in
        if leb stop now then some (now, []) else elim rest [
          | none ↦ none
          | some (ended, pubs) ↦ some (ended, beat now (text "online") ++ pubs)
        ]

    pub run : ℕ → ℕ → Option (List Publication)
    run stop fuel = elim (run_loop stop fuel 0) [
      | none ↦ none
      | some (ended, pubs) ↦ some (pubs ++ beat ended (text "offline"))
    ]
