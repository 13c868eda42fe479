-- ===== src/Mqtt/LogSink.antt =====
-- src/mqtt/MqttLogSink.hpp: the sink that publishes the records of the log. What the publication does,
-- the records that it logs itself included, is a parameter; so is the formatting of times.
use orbis_agent_desktop.Base.{
  refl, ◌≡◌, Bool, true, false, List, [], ◌∷◌, ◌++◌, Text, text, is_empty, if◌then◌else◌, ◌≡◌,
}
use orbis_agent_desktop.Json.{JsonLib, ok, err}

pub data Level : Type 0 where
  trace debug info warn error critical off : Level

pub level_to_string : Level → Text
level_to_string trace = text "DEBUG"
level_to_string debug = text "DEBUG"
level_to_string info = text "INFO"
level_to_string warn = text "WARNING"
level_to_string error = text "ERROR"
level_to_string critical = text "CRITICAL"
level_to_string off = text "INFO"

pub record LogMsg : Type 0 where
  pub level : Level
  pub time : Text
  pub logger_name : Text
  pub payload : Text

module _ (json : JsonLib) where
  pub doc : Text → LogMsg → json.Value
  unfolding level_to_string
  doc device_id msg = json.object (
      (text "device_id", json.of_text device_id)
      ∷ (text "timestamp", json.of_text msg.time)
      ∷ (text "level", json.of_text (level_to_string msg.level))
      ∷ (
        text "source",
        json.of_text (if is_empty msg.logger_name then text "agent" else msg.logger_name),
      )
      ∷ (text "message", json.of_text msg.payload)
      ∷ [])

  -- `published` are the payloads given to `publish_fn_`, in order.
  pub record Sink : Type 0 where
    pub device_id : Text
    pub in_publish : Bool
    pub published : List Text

  -- `publish` is what the call of `publish_fn_` does to the sink, since it may log; every exception is
  -- caught, that of `dump` and that of the call.
  unfoldable pub sink_it : (Text → Sink → Sink) → Sink → LogMsg → Sink
  sink_it publish s msg = if s.in_publish then s else elim (json.dump (doc s.device_id msg)) [
    | err what ↦ record s { in_publish = false }
    | ok payload ↦
        record (publish payload
          (record s { in_publish = true; published = s.published ++ payload ∷ [] })) {
            in_publish = false;
          }
  ]

  -- A call of `publish_fn_` that logs the records `msgs`, each by the sink again.
  pub logging : (Text → Sink → Sink) → List LogMsg → Sink → Sink
  unfolding sink_it
  logging publish [] s = s
  logging publish (msg ∷ msgs) s = logging publish msgs (sink_it publish s msg)

  -- Within a call the guard holds, and nothing is published.
  logging-guarded :
      (publish : Text → Sink → Sink) (msgs : List LogMsg) (s : Sink)
      → s.in_publish ≡ true
      → logging publish msgs s ≡ s
  unfolding logging sink_it
  logging-guarded publish [] s h = refl
  logging-guarded publish (msg ∷ msgs) s h = simp h (logging-guarded publish msgs s h)

  -- A record is published once, whatever the publication logs, and the guard is down after it, where
  -- the record can be written as a document.
  pub sink_it-once :
      (publish : Text → Sink → Sink) (logs : Text → List LogMsg) (s : Sink) (msg : LogMsg)
      (payload : Text)
      → s.in_publish ≡ false
      → json.dump (doc s.device_id msg) ≡ ok payload
      → sink_it (λ p t. logging publish (logs p) t) s msg
        ≡ record s { in_publish = false; published = s.published ++ payload ∷ [] }
  unfolding sink_it
  sink_it-once publish logs s msg payload h e = rw h (
      rw (e, sink_it)
        (rw
          (logging-guarded publish (logs payload)
            (record s { in_publish = true; published = s.published ++ payload ∷ [] }) refl)
          refl))
