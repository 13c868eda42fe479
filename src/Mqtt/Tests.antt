-- ===== src/Mqtt/Tests.antt =====
-- The theorems about the client, over a Paho client whose broker refuses a number of connections.
use orbis_agent_desktop.Base.{
  ℕ, zero, suc, ◌≡◌, refl, true, false, [], ◌∷◌, ◌++◌, none, text, All, arith, text_eq, List, Text,
}
use orbis_agent_desktop.Mqtt.{
  Paho, ConnectOptions, Settings, Client, registered, on_connection_lost, reconnect_loop,
  reconnected, connected_callback,
}
use orbis_agent_desktop.Mqtt.Inbound.{
  arrivals, executor_callback, commands_of, arrivals_other_device,
}
use orbis_agent_desktop.Mqtt.Subscriptions.{NoDup, run, run-Registered, subscribes, disconnects}
use orbis_agent_desktop.Mqtt.Reconnect.{
  expected, Subscribing, slept_in, handle_after, reconnect_loop_lem,
}

-- The handle counts the refusals that are left and keeps the subscriptions made.
abbrev refuses : ConnectOptions → ℕ × List (Text × ℕ) → ℕ × (ℕ × List (Text × ℕ))
refuses options (zero, subs) = (0, (zero, subs))
refuses options (suc n, subs) = (3, (n, subs))

abbrev counting : Paho
counting = record {
  Handle = ℕ × List (Text × ℕ);
  create = λ uri id. (0, (0, []));
  connect = refuses;
  disconnect = λ timeout h. h;
  is_connected = λ h. true;
  publish_message = λ topic payload qos retained h. (0, h);
  subscribe = λ topic qos h. (0, (h.0, h.1 ++ (topic, qos) ∷ []));
}

abbrev counting-Subscribing : Subscribing counting
counting-Subscribing = record { asked = λ h. h.1; asks = λ topic qos h. refl }

abbrev settings : Settings
settings = record {
  broker_uri = text "ssl://b";
  client_id = text "c";
  ca_cert_path = [];
  reconnect_min_sec = 5;
  reconnect_max_sec = 60;
}

-- Connected once, with two topics registered, to a broker that will refuse two attempts.
abbrev client : Client counting
client = record {
  settings = settings;
  client = (2, []);
  connected = true;
  shutdown = false;
  last = record {
    username = text "u";
    password = text "p";
    will_topic = [];
    will_payload = [];
    keepalive_sec = 60;
  };
  subscriptions = (text "a", 1) ∷ (text "b", 1) ∷ [];
  calls = [];
  log_publishes = false;
  stuck = false;
}

run-Registered_example :
    NoDup (run counting client (subscribes (text "c") 1 ∷ disconnects ∷ [])).subscriptions
    × All
        (λ t.
          registered
            (run counting client (subscribes (text "c") 1 ∷ disconnects ∷ [])).subscriptions
            t
          ≡ true)
        (text "c" ∷ [])
run-Registered_example =
    run-Registered counting client (subscribes (text "c") 1 ∷ disconnects ∷ [])
      (unfold registered text text_eq in (refl, (refl, tt)))

reconnect_loop_lem_example :
    let (lost, starts) = on_connection_lost counting client none in
    let handle = handle_after counting (expected client.settings client.last) 3 client.client in
    (starts ≡ true)
    × ((back : Client counting) × (reconnect_loop counting (λ n. false) 9 lost 0 0
          ≡ reconnected back (slept_in client.settings 0 3))
        × (back.connected ≡ true)
        × (back.client.1 ≡ handle.1 ++ (text "a", 1) ∷ (text "b", 1) ∷ [])
        × (back.calls ≡ lost.calls ++ connected_callback ∷ []))
reconnect_loop_lem_example =
    reconnect_loop_lem counting counting-Subscribing 2 9 client none refl refl (omega arith)
      (refl, (refl, refl))

arrivals_other_device_example :
    arrivals
      (executor_callback (100 ∷ []))
      ((1 ∷ []) ∷ [])
      (commands_of (101 ∷ []) ((2 ∷ []) ∷ (3 ∷ []) ∷ []))
    ≡ (1 ∷ []) ∷ []
arrivals_other_device_example =
    arrivals_other_device (100 ∷ []) (101 ∷ []) ((1 ∷ []) ∷ []) ((2 ∷ []) ∷ (3 ∷ []) ∷ [])
      (λ e. ground arith)
