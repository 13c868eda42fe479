-- ===== src/LogCollector/Wiring.antt =====
-- src/main.cpp: the functions that the agent gives its services to publish with, over the MQTT
-- client and the buffer, and what the log collector does with them.
use orbis_agent_desktop.Base.{
  ℕ, ◌≡◌, Bool, true, false, [], ◌∷◌, ◌++◌, Text, if◌then◌else◌, length, ◌+◌, ◌<◌, arith,
  length-append, c_string,
}
use orbis_agent_desktop.Json.{JsonLib}
use orbis_agent_desktop.LocalBuffer.{store, buffer_max_messages}
use orbis_agent_desktop.LocalBuffer.Database.{Sqlite, Row, Laws, NeverFails}
use orbis_agent_desktop.LocalBuffer.Bounds.{rows-store_room}
use orbis_agent_desktop.LogCollector.{send}

module _ (sqlite : Sqlite) {Mqtt : Type 0} (mqtt_publish : Mqtt → Text → Text → Bool × Mqtt)
    (now_ms : ℕ) where
  -- `publish`: what the client refuses goes to the buffer, and the caller is told.
  unfoldable pub publish : Mqtt × sqlite.Db → Text → Text → Bool × (Mqtt × sqlite.Db)
  publish (mqtt, db) topic payload =
      let (published, mqtt') = mqtt_publish mqtt topic payload in
      if published
      then (true, (mqtt', db))
      else (false, (mqtt', store sqlite db topic payload now_ms))

  pub store_fn : Mqtt × sqlite.Db → Text → Text → Mqtt × sqlite.Db
  store_fn (mqtt, db) topic payload = (mqtt, store sqlite db topic payload now_ms)

  abbrev pub row_of : ℕ → Text → Text → Row
  row_of id topic payload = record {
    id = id;
    topic = c_string topic;
    payload = c_string payload;
    timestamp = now_ms;
    attempts = 0;
  }

  -- A batch of logs that the client refuses is buffered twice, once by the function that publishes
  -- and once by the collector, where the buffer has room and no statement fails.
  pub send-twice :
      (laws : Laws sqlite) (sound : NeverFails sqlite) (json : JsonLib) (mqtt : Mqtt)
      (db : sqlite.Db) (topic payload : Text)
      → (mqtt_publish mqtt topic payload).0 ≡ false
      → length (sqlite.rows db) + 1 < buffer_max_messages
      → (first second : ℕ) × (sqlite.rows (send json publish store_fn topic payload (mqtt, db)).1
          ≡ (sqlite.rows db ++ row_of first topic payload ∷ []) ++ row_of second topic payload ∷ [])
  unfolding send publish store_fn
  send-twice laws sound json mqtt db topic payload refused room =
      let d = store sqlite db topic payload now_ms in
      let (first, e) =
        rows-store_room sqlite laws sound db topic payload now_ms (omega (arith, room)) in
      let (second, e') = rows-store_room sqlite laws sound d topic payload now_ms (
        rw e (
          omega (arith, room, length-append (sqlite.rows db) (row_of first topic payload ∷ [])))) in
      (first, second, rw refused (rw e' (rw e)))
