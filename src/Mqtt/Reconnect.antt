-- ===== src/Mqtt/Reconnect.antt =====
-- The delays of the reconnection loop, and that it reconnects.
use native.Mathlib.Nat.{mul-le-mul_left, pow-le-pow_right, le-mul_of_pos_right, one-le-pow}
use orbis_agent_desktop.Base.{
  if◌then◌else◌, ℕ, zero, suc, ◌+◌, ◌*◌, ◌^◌, ◌≤◌, ◌<◌, min, ◌≡◌, refl, ap, ◌∙◌, true, false, ◌||◌,
  [], ◌∷◌, ◌++◌, Text, ◌==◌, arith, Option, List, sym, append-nil, append_assoc, is_empty, none,
  some, starts_with, text, not,
}
use orbis_agent_desktop.Mqtt.{
  Paho, Client, Settings, ConnectOptions, Credentials, connect_options, pointer, delay, reconnected,
  on_connected, log_failure, reconnect_loop, resubscribe, connected_callback, on_connection_lost,
}

-- The delay never shrinks from one attempt to the next, stays within the maximum, is at least
-- the minimum where the settings allow it, and is constant from the eleventh attempt on.
delay_lem :
    (cfg : Settings) (attempt : ℕ)
    → (delay cfg attempt ≤ delay cfg (attempt + 1))
      × (delay cfg attempt ≤ cfg.reconnect_max_sec)
      × (min cfg.reconnect_max_sec cfg.reconnect_min_sec ≤ delay cfg attempt)
      × (delay cfg (attempt + 10) ≡ delay cfg 10)
unfolding delay
delay_lem cfg attempt =
    let m = cfg.reconnect_min_sec in
    let step : m * 2 ^ min attempt 10 ≤ m * 2 ^ min (attempt + 1) 10 =
      mul-le-mul_left m (pow-le-pow_right (omega arith) (omega arith)) in
    let least : m ≤ m * 2 ^ min attempt 10 =
      le-mul_of_pos_right m (one-le-pow (min attempt 10) 2 (omega arith)) in
    let cap : min (attempt + 10) 10 ≡ 10 = omega arith in
    (omega (arith, step), omega arith, omega (arith, least), rw cap refl)

-- The seconds that the attempts from `attempt` on sleep: each the minimum, doubled for every attempt before
-- it up to ten, and at most the maximum.
pub slept_in : Settings → ℕ → ℕ → ℕ
slept_in cfg attempt zero = 0
slept_in cfg attempt (suc n) =
    min cfg.reconnect_max_sec (cfg.reconnect_min_sec * 2 ^ min attempt 10)
    + slept_in cfg (attempt + 1) n

-- The options of a connection: the name, the password and the last will where they are not empty, and TLS
-- for the schemes `ssl` and `tls`, verified where there is a certificate.
abbrev pub given : Text → Option Text
given s = if is_empty s then none else some s

abbrev pub expected : Settings → Credentials → ConnectOptions
expected cfg c = record {
  keep_alive_interval = c.keepalive_sec;
  cleansession = true;
  username = given c.username;
  password = given c.password;
  will =
      if is_empty c.will_topic
      then none
      else some (record {
        topic_name = c.will_topic;
        message = c.will_payload;
        qos = 1;
        retained = true;
      });
  ssl =
      if starts_with (text "ssl://") cfg.broker_uri || starts_with (text "tls://") cfg.broker_uri
      then some (record {
        enable_server_cert_auth = not (is_empty cfg.ca_cert_path);
        trust_store = given cfg.ca_cert_path;
      })
      else none;
}

-- A client that keeps what it was asked to subscribe to.
pub record Subscribing (paho : Paho) : Type 0 where
  pub asked : paho.Handle → List (Text × ℕ)
  pub asks :
      (topic : Text) (qos : ℕ) (h : paho.Handle)
      → asked (paho.subscribe topic qos h).1 ≡ asked h ++ (topic, qos) ∷ []

resubscribe-asks :
    (paho : Paho) (s : Subscribing paho) (subs : List (Text × ℕ)) (h : paho.Handle)
    → s.asked (resubscribe paho subs h) ≡ s.asked h ++ subs
unfolding resubscribe
resubscribe-asks paho s [] h = sym (append-nil (s.asked h))
resubscribe-asks paho s ((topic, qos) ∷ subs) h =
    resubscribe-asks paho s subs (paho.subscribe topic qos h).1
    ∙ (ap (λ l. l ++ subs) (s.asks topic qos h) ∙ append_assoc (s.asked h) ((topic, qos) ∷ []) subs)

module _ (paho : Paho) where
  -- The handle after a number of attempts.
  pub handle_after : ConnectOptions → ℕ → paho.Handle → paho.Handle
  handle_after options zero h = h
  handle_after options (suc n) h = handle_after options n (paho.connect options h).1

  -- The broker refuses a number of attempts, and accepts the next one.
  abbrev pub AcceptsAfter : ConnectOptions → ℕ → paho.Handle → Type 0
  AcceptsAfter options zero h = (paho.connect options h).0 ≡ 0
  AcceptsAfter options (suc n) h =
      (((paho.connect options h).0 == 0) ≡ false)
      × AcceptsAfter options n (paho.connect options h).1

  log_failure_off : (c : Client paho) → c.log_publishes ≡ false → log_failure paho c ≡ c
  unfolding log_failure
  log_failure_off c q = rw q refl

  reconnect_from :
      (refused fuel attempt slept : ℕ) (c : Client paho)
      → (c.shutdown || c.connected) ≡ false
      → c.log_publishes ≡ false
      → refused < fuel
      → AcceptsAfter (connect_options c.settings c.last) refused c.client
      → reconnect_loop paho (λ n. false) fuel c attempt slept
        ≡ reconnected
            (on_connected paho c
              (handle_after (connect_options c.settings c.last) (suc refused) c.client))
            (slept + slept_in c.settings attempt (suc refused))
  unfolding reconnect_loop handle_after slept_in on_connected delay
  reconnect_from refused zero attempt slept c n q f h = absurd (omega arith)
  reconnect_from zero (suc fuel) attempt slept c n q f h =
      rw (n, log_failure_off c q)
        (rw h (
          ap
            (reconnected
              (on_connected paho c (paho.connect (connect_options c.settings c.last) c.client).1))
            (omega arith)))
  reconnect_from (suc refused) (suc fuel) attempt slept c n q f h =
      let ih =
        reconnect_from refused fuel (attempt + 1) (slept + delay c.settings attempt)
          (record c { client = (paho.connect (connect_options c.settings c.last) c.client).1 }) n q
          (omega (arith, f)) h.1 in
      rw (n, log_failure_off c q)
        (rw h.0 (
          ih
          ∙ ap
              (reconnected (
                on_connected paho c (
                  handle_after (connect_options c.settings c.last) (suc refused)
                    (paho.connect (connect_options c.settings c.last) c.client).1)))
              (omega arith)))

  -- After the connection of a client that connected once is lost, and the broker refuses a number of
  -- attempts and then accepts one, the loop that the loss starts ends with fuel for
  -- that many attempts: connected, with the options of the last `connect`, after the delays of
  -- the attempts, and every registered topic has been asked for again, in order and once. Nothing
  -- shuts down meanwhile, the log has no sink that publishes through the client, and the client keeps
  -- what it was asked for.
  pub reconnect_loop_lem :
      (s : Subscribing paho) (refused fuel : ℕ) (c : Client paho) (cause : Option Text)
      → c.shutdown ≡ false
      → c.log_publishes ≡ false
      → refused < fuel
      → AcceptsAfter (expected c.settings c.last) refused c.client
      → let (lost, starts) = on_connection_lost paho c cause in
        let handle = handle_after (expected c.settings c.last) (suc refused) c.client in
        (starts ≡ true)
        × ((back : Client paho) × (reconnect_loop paho (λ n. false) fuel lost 0 0
              ≡ reconnected back (slept_in c.settings 0 (suc refused)))
            × (back.connected ≡ true)
            × (s.asked back.client ≡ s.asked handle ++ c.subscriptions)
            × (back.calls ≡ lost.calls ++ connected_callback ∷ []))
  unfolding on_connection_lost on_connected connect_options pointer
  reconnect_loop_lem s refused fuel c cause d q f h =
      let lost = (on_connection_lost paho c cause).0 in
      let handle = handle_after (expected c.settings c.last) (suc refused) c.client in
      let loop = reconnect_from refused fuel 0 0 lost (rw d refl) q f h in
      (
        rw d refl,
        (
          on_connected paho lost handle,
          loop ∙ ap (reconnected (on_connected paho lost handle)) (omega arith),
          refl,
          resubscribe-asks paho s c.subscriptions handle,
          refl,
        ),
      )
