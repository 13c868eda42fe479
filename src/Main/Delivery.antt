-- ===== src/Main/Delivery.antt =====
-- The wiring of src/main.cpp from a service to the broker: `publish` over the client and the buffer, and
-- the flush of the buffer when the client is connected again.
pub mod Tests
use orbis_agent_desktop.Base.{
  ℕ, ◌+◌, ◌<◌, ◌≡◌, refl, sym, ap, ◌∙◌, subst, Bool, true, false, List, [], ◌∷◌, ◌++◌, map, some,
  Text, c_string, length, length-append, length-map, append_assoc, append-nil, arith,
}
use orbis_agent_desktop.Mqtt.{Paho, Client, is_connected, mqtt_default_qos}
use orbis_agent_desktop.Mqtt as Mqtt
use orbis_agent_desktop.LocalBuffer.{buffer_max_messages, Progress, flush, store}
use orbis_agent_desktop.LocalBuffer.Database.{Sqlite, Row, Laws, NeverFails}
use orbis_agent_desktop.LocalBuffer.Bounds.{rows-store_room}
use orbis_agent_desktop.LocalBuffer.Flush.{drain, flush-drain}
use orbis_agent_desktop.LogCollector.Wiring as Wiring

-- A message that a service publishes, with the clock's reading.
pub record Message : Type 0 where
  pub topic : Text
  pub payload : Text
  pub now_ms : ℕ

-- What the buffer keeps of a message: the texts end at their first NUL.
abbrev pub content : Message → Text × Text
content m = (c_string m.topic, c_string m.payload)

abbrev pub row_content : Row → Text × Text
row_content r = (r.topic, r.payload)

-- The row that a message gives.
abbrev stored : ℕ → Message → Row
stored id m = record {
  id = id;
  topic = c_string m.topic;
  payload = c_string m.payload;
  timestamp = m.now_ms;
  attempts = 0;
}

map_content-append :
    (rs qs : List Row) (rest : List (Text × Text))
    → map row_content (rs ++ qs) ++ rest ≡ map row_content rs ++ (map row_content qs ++ rest)
map_content-append [] qs rest = refl
map_content-append (r ∷ rs) qs rest = rw (map_content-append rs qs rest) refl

pub length-content :
    (rs qs : List Row) (ms : List Message)
    → map row_content rs ≡ map row_content qs ++ map content ms
    → length rs ≡ length qs + length ms
length-content rs qs ms e = omega (
  arith,
  ap length e,
  length-append (map row_content qs) (map content ms),
  length-map rs row_content,
  length-map qs row_content,
  length-map ms content,
)

-- A broker that takes every message of a handle that is connected, and a connection that lasts
-- meanwhile; `log` is what the broker has got.
pub record Taking (paho : Paho) : Type 0 where
  pub log : paho.Handle → List (Text × Text)
  pub takes :
      (topic payload : Text) (qos : ℕ) (retained : Bool) (h : paho.Handle)
      → paho.is_connected h ≡ true
      → (paho.publish_message topic payload qos retained h).0 ≡ 0
  pub lasts :
      (topic payload : Text) (qos : ℕ) (retained : Bool) (h : paho.Handle)
      → paho.is_connected h ≡ true
      → paho.is_connected (paho.publish_message topic payload qos retained h).1 ≡ true
  pub logs :
      (topic payload : Text) (qos : ℕ) (retained : Bool) (h : paho.Handle)
      → paho.is_connected h ≡ true
      → log (paho.publish_message topic payload qos retained h).1 ≡ log h ++ (topic, payload) ∷ []

module _ (paho : Paho) where
  -- `mqtt->publish(topic, payload)`, with the defaults of the other two parameters.
  unfoldable pub mqtt_publish : Client paho → Text → Text → Bool × Client paho
  mqtt_publish c topic payload = Mqtt.publish paho c topic payload mqtt_default_qos false

  -- The client is connected, and Paho says so.
  abbrev pub Up : Client paho → Type 0
  Up c = (c.connected ≡ true) × (paho.is_connected c.client ≡ true)

  module _ (taking : Taking paho) where
    -- A connected client, from which the broker has got these messages since.
    abbrev pub Sent : Client paho → Client paho → List (Text × Text) → Type 0
    Sent c c' ms = Up c' × (taking.log c'.client ≡ taking.log c.client ++ ms)

    Sent-nothing : (c : Client paho) → Up c → Sent c c []
    Sent-nothing c on = (on, sym (append-nil (taking.log c.client)))

    Sent-then :
        (c c' c'' : Client paho) (ms ns : List (Text × Text))
        → Sent c c' ms
        → Sent c' c'' ns
        → Sent c c'' (ms ++ ns)
    Sent-then c c' c'' ms ns a b =
        (b.0, b.1 ∙ (ap (λ l. l ++ ns) a.1 ∙ append_assoc (taking.log c.client) ms ns))

    publish-Sent :
        (c : Client paho) (topic payload : Text) (qos : ℕ) (retained : Bool)
        → Up c
        → ((Mqtt.publish paho c topic payload qos retained).0 ≡ true)
          × Sent c (Mqtt.publish paho c topic payload qos retained).1 ((topic, payload) ∷ [])
    unfolding Mqtt.publish is_connected
    publish-Sent c topic payload qos retained (on, alive) =
        rw (on, alive, taking.takes topic payload qos retained c.client alive)
          (
            refl,
            (
              (refl, taking.lasts topic payload qos retained c.client alive),
              taking.logs topic payload qos retained c.client alive,
            ),
          )

  module _ (sqlite : Sqlite) where
    -- The calls of the function `publish` of `main`, one after the other.
    pub publish_all : Client paho × sqlite.Db → List Message → Client paho × sqlite.Db
    unfolding mqtt_publish
    publish_all s [] = s
    publish_all s (m ∷ ms) =
        publish_all (Wiring.publish sqlite mqtt_publish m.now_ms s m.topic m.payload).1 ms

    module _ (laws : Laws sqlite) (sound : NeverFails sqlite) where
      publish-offline :
          (c : Client paho) (db : sqlite.Db) (m : Message)
          → c.connected ≡ false
          → c.log_publishes ≡ false
          → (Wiring.publish sqlite mqtt_publish m.now_ms (c, db) m.topic m.payload).1
            ≡ (c, store sqlite db m.topic m.payload m.now_ms)
      unfolding mqtt_publish Wiring.publish Mqtt.publish is_connected Mqtt.log_failure
      publish-offline c db m off quiet = rw off (rw quiet refl)

      -- What is published while the client is not connected is in the buffer, in order.
      publish_all-offline :
          (c : Client paho) (db : sqlite.Db) (ms : List Message)
          → c.connected ≡ false
          → c.log_publishes ≡ false
          → length (sqlite.rows db) + length ms < buffer_max_messages
          → ((publish_all (c, db) ms).0 ≡ c)
            × (map row_content (sqlite.rows (publish_all (c, db) ms).1)
                ≡ map row_content (sqlite.rows db) ++ map content ms)
      unfolding publish_all
      publish_all-offline c db [] off quiet room =
          (refl, sym (append-nil (map row_content (sqlite.rows db))))
      publish_all-offline c db (m ∷ ms) off quiet room =
          let (id, e) =
            rows-store_room sqlite laws sound db m.topic m.payload m.now_ms (omega (arith, room)) in
          let db' = store sqlite db m.topic m.payload m.now_ms in
          let (same, kept) =
            publish_all-offline c db' ms off quiet (
              omega
                (arith, room, ap length e, length-append (sqlite.rows db) (stored id m ∷ []))) in
          rw (publish_all, publish-offline c db m off quiet)
            (
              same,
              kept
                  ∙ (ap (λ rs. map row_content rs ++ map content ms) e
                      ∙ map_content-append (sqlite.rows db) (stored id m ∷ []) (map content ms)),
            )

    module _ (taking : Taking paho) where
      drain-Sent :
          (c : Client paho) (rows : List Row) (n : ℕ)
          → Up c
          → Sent taking c (drain sqlite mqtt_publish c rows n).0 (map row_content rows)
            × ((drain sqlite mqtt_publish c rows n).2 ≡ [])
      unfolding drain mqtt_publish
      drain-Sent c [] n on = (Sent-nothing taking c on, refl)
      drain-Sent c (r ∷ rows) n on =
          let (took, sent) = publish-Sent taking c r.topic r.payload mqtt_default_qos false on in
          let c₁ = (mqtt_publish c r.topic r.payload).1 in
          let (rest, left) = drain-Sent c₁ rows (n + 1) sent.0 in
          simp took (
            Sent-then taking c c₁ (drain sqlite mqtt_publish c₁ rows (n + 1)).0 (row_content r ∷ [])
                (map row_content rows) sent rest,
            left,
          )

      -- A flush with a connected client sends what is stored and empties the buffer.
      flush-Sent :
          (laws : Laws sqlite) (sound : NeverFails sqlite) (c : Client paho) (db : sqlite.Db)
          (fuel : ℕ)
          → Up c
          → length (sqlite.rows db) < fuel
          → (p : Progress sqlite mqtt_publish) × (flush sqlite mqtt_publish fuel c db ≡ some p)
            × Sent taking c p.world (map row_content (sqlite.rows db))
            × (sqlite.rows p.db ≡ [])
      flush-Sent laws sound c db fuel on enough =
          let (p, ran, spec) = flush-drain sqlite mqtt_publish laws sound fuel c db enough in
          let (sent, emptied) = drain-Sent c (sqlite.rows db) 0 on in
          (
            p,
            ran,
            subst
                (λ (o : Client paho × ℕ × List Row).
                  Sent taking c o.0 (map row_content (sqlite.rows db)))
                spec sent,
            sym (ap (λ (o : Client paho × ℕ × List Row). o.2) spec) ∙ emptied,
          )

      module _ (laws : Laws sqlite) (sound : NeverFails sqlite) where
        -- Where no statement of the buffer fails, the buffer has room for all of `ms`, and the broker takes
        -- every message of a handle that Paho reports as connected, which stays connected meanwhile: if
        -- `ms` are published while the client is not connected and the log has no sink that publishes,
        -- then a flush with a connected client, on any fuel above the number of rows stored before
        -- and of messages, ends, has sent what was in the buffer before and then every message of
        -- `ms`, its topic and payload up to their first NUL, in the order of publishing and each once,
        -- and leaves the buffer empty.
        pub flush-publish_all :
            (c c' : Client paho) (db : sqlite.Db) (ms : List Message) (fuel : ℕ)
            → c.connected ≡ false
            → c.log_publishes ≡ false
            → Up c'
            → length (sqlite.rows db) + length ms < buffer_max_messages
            → length (sqlite.rows db) + length ms < fuel
            → (p : Progress sqlite mqtt_publish) × (flush sqlite mqtt_publish fuel c'
                  (publish_all (c, db) ms).1
                ≡ some p)
              × (taking.log p.world.client
                  ≡ taking.log c'.client ++ (map row_content (sqlite.rows db) ++ map content ms))
              × (sqlite.rows p.db ≡ [])
        flush-publish_all c c' db ms fuel off quiet on room enough =
            let db' = (publish_all (c, db) ms).1 in
            let kept = (publish_all-offline laws sound c db ms off quiet room).1 in
            let counted = length-content (sqlite.rows db') (sqlite.rows db) ms kept in
            let (p, ran, sent, emptied) =
              flush-Sent laws sound c' db' fuel on (omega (arith, enough, counted)) in
            (p, ran, sent.1 ∙ ap (λ l. taking.log c'.client ++ l) kept, emptied)
