-- ===== src/Main/Delivery/Tests.antt =====
-- The delivery of src/main.cpp with a broker that keeps a list of what it has got.
use orbis_agent_desktop.Base.{
  ◌≡◌, refl, c_string, if◌then◌else◌, Bool, true, false, List, [], ◌∷◌, ◌++◌, some, Text, text,
  arith,
}
use orbis_agent_desktop.Mqtt.{Paho, Client}
use orbis_agent_desktop.LocalBuffer.{flush, Progress}
use orbis_agent_desktop.LocalBuffer.Tests.{
  table_db, table_db-Laws, table_db-NeverFails, two_rows, Table,
}
use orbis_agent_desktop.Main.Delivery.{
  Message, Taking, mqtt_publish, publish_all, flush-publish_all,
}

-- A handle is whether it is connected, and what the broker has got.
abbrev pub listing : Paho
listing = record {
  Handle = Bool × List (Text × Text);
  create = λ uri id. (0, (false, []));
  connect = λ options h. (0, (true, h.1));
  disconnect = λ timeout h. (false, h.1);
  is_connected = λ h. h.0;
  publish_message = λ topic payload qos retained h.
      if h.0 then (0, (true, h.1 ++ (topic, payload) ∷ [])) else (1, h);
  subscribe = λ topic qos h. if h.0 then (0, h) else (1, h);
}

abbrev listing-Taking : Taking listing
listing-Taking = record {
  log = λ h. h.1;
  takes = λ topic payload qos retained h up. rw up refl;
  lasts = λ topic payload qos retained h up. rw up refl;
  logs = λ topic payload qos retained h up. rw up refl;
}

abbrev pub client : Bool → Client listing
client up = record {
  settings = record {
    broker_uri = text "ssl://b";
    client_id = text "c";
    ca_cert_path = [];
    reconnect_min_sec = 5;
    reconnect_max_sec = 60;
  };
  client = (up, []);
  connected = up;
  shutdown = false;
  last = record {
    username = text "u";
    password = text "p";
    will_topic = [];
    will_payload = [];
    keepalive_sec = 60;
  };
  subscriptions = [];
  calls = [];
  log_publishes = false;
  stuck = false;
}

abbrev pub messages : List Message
messages =
    record { topic = text "t"; payload = text "c"; now_ms = 7 }
    ∷ record { topic = text "u"; payload = text "d"; now_ms = 8 }
    ∷ []

abbrev stored : Table
stored = (publish_all listing table_db (client false, two_rows) messages).1

flush-publish_all_example :
    (p : Progress table_db (mqtt_publish listing)) × (flush table_db
        (mqtt_publish listing)
        5
        (client true)
        stored
      ≡ some p)
    × (p.world.client.1
        ≡ (text "t", text "a")
          ∷ (text "t", text "b")
          ∷ (text "t", text "c")
          ∷ (text "u", text "d")
          ∷ [])
    × (p.db.contents ≡ [])
unfolding text c_string
flush-publish_all_example =
    flush-publish_all listing table_db listing-Taking table_db-Laws table_db-NeverFails
      (client false) (client true) two_rows messages 5 refl refl (refl, refl) (omega arith)
      (omega arith)
