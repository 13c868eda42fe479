-- ===== src/Mqtt/Subscriptions.antt =====
-- The topics that the client registers.
use orbis_agent_desktop.Base.{
  ℕ, ◌≡◌, refl, Bool, true, false, ◌||◌, List, [], ◌∷◌, ◌++◌, Option, Text, text_eq, text_eq_sym,
  text_eq_refl, All, Bool-cases, ◌==◌, arith, inl, inr, ◌∙◌, ==_iff,
}
use orbis_agent_desktop.Mqtt.{
  Paho, Client, Credentials, registered, register, connect, disconnect, publish, subscribe,
  on_connection_lost, log_failure, on_connected, is_connected, connect_options,
}

-- No topic is registered twice.
abbrev pub NoDup : List (Text × ℕ) → Type 0
NoDup [] = Unit
NoDup ((topic, qos) ∷ subs) = (registered subs topic ≡ false) × NoDup subs

registered-append :
    (subs : List (Text × ℕ)) (topic t : Text) (qos : ℕ)
    → registered (subs ++ (t, qos) ∷ []) topic ≡ (registered subs topic || text_eq t topic)
unfolding registered
registered-append [] topic t qos = ground arith
registered-append ((u, q) ∷ subs) topic t qos = ground (arith, registered-append subs topic t qos)

NoDup-append :
    (subs : List (Text × ℕ)) (topic : Text) (qos : ℕ)
    → registered subs topic ≡ false
    → NoDup subs
    → NoDup (subs ++ (topic, qos) ∷ [])
unfolding registered
NoDup-append [] topic qos e h = (refl, tt)
NoDup-append ((t, q) ∷ subs) topic qos e h = (
  ground (arith, e, h.0, registered-append subs t topic qos, text_eq_sym t topic),
  NoDup-append subs topic qos (ground (arith, e)) h.1,
)

NoDup-register :
    (subs : List (Text × ℕ)) (topic : Text) (qos : ℕ) → NoDup subs → NoDup (register subs topic qos)
unfolding register
NoDup-register subs topic qos h = elim (Bool-cases (registered subs topic)) [
  | inl e ↦ rw e h
  | inr e ↦ rw e (NoDup-append subs topic qos e h)
]

-- After a registration the topic is there.
pub registered-register :
    (subs : List (Text × ℕ)) (topic : Text) (qos : ℕ)
    → registered (register subs topic qos) topic ≡ true
unfolding register
registered-register subs topic qos = elim (Bool-cases (registered subs topic)) [
  | inl e ↦ rw e e
  | inr e ↦ rw e (registered-append subs topic topic qos ∙ ground (arith, e, text_eq_refl topic))
]

-- A topic stays registered when another one is.
pub registered_stays :
    (subs : List (Text × ℕ)) (topic t : Text) (qos : ℕ)
    → registered subs topic ≡ true
    → registered (register subs t qos) topic ≡ true
unfolding register
registered_stays subs topic t qos h = ground (arith, h, registered-append subs topic t qos)

-- The calls that the agent and the Paho client make on the wrapper.
pub data Operation : Type 0 where
  connects : Credentials → Operation
  disconnects : Operation
  publishes : Text → Text → ℕ → Bool → Operation
  subscribes : Text → ℕ → Operation
  loses_connection : Option Text → Operation

-- The topics that a list of calls subscribes to.
abbrev pub topics : List Operation → List Text
topics [] = []
topics (subscribes topic qos ∷ ops) = topic ∷ topics ops
topics (_ ∷ ops) = topics ops

module _ (paho : Paho) where
  unfoldable pub apply : Client paho → Operation → Client paho
  apply c (connects credentials) = (connect paho c credentials).1
  apply c disconnects = disconnect paho c
  apply c (publishes topic payload qos retained) = (publish paho c topic payload qos retained).1
  apply c (subscribes topic qos) = (subscribe paho c topic qos).1
  apply c (loses_connection cause) = (on_connection_lost paho c cause).0

  unfoldable pub run : Client paho → List Operation → Client paho
  run c [] = c
  run c (op ∷ ops) = run (apply c op) ops

  -- Only a subscription changes the registered topics.
  subscriptions_after : List (Text × ℕ) → Operation → List (Text × ℕ)
  subscriptions_after subs (subscribes topic qos) = register subs topic qos
  subscriptions_after subs _ = subs

  subscriptions-apply :
      (c : Client paho) (op : Operation)
      → (apply c op).subscriptions ≡ subscriptions_after c.subscriptions op
  unfolding apply subscriptions_after connect on_connected disconnect publish log_failure subscribe
      on_connection_lost
  subscriptions-apply c (connects credentials) = ground arith
  subscriptions-apply c disconnects = ground arith
  subscriptions-apply c (publishes topic payload qos retained) = ground arith
  subscriptions-apply c (subscribes topic qos) = ground arith
  subscriptions-apply c (loses_connection cause) = refl

  log_publishes-apply :
      (c : Client paho) (op : Operation) → (apply c op).log_publishes ≡ c.log_publishes
  unfolding apply connect on_connected disconnect publish log_failure subscribe on_connection_lost
  log_publishes-apply c (connects credentials) = ground arith
  log_publishes-apply c disconnects = ground arith
  log_publishes-apply c (publishes topic payload qos retained) = ground arith
  log_publishes-apply c (subscribes topic qos) = ground arith
  log_publishes-apply c (loses_connection cause) = refl

  -- No call takes the sink of the log away.
  pub log_publishes-run :
      (c : Client paho) (ops : List Operation) → (run c ops).log_publishes ≡ c.log_publishes
  unfolding run
  log_publishes-run c [] = refl
  log_publishes-run c (op ∷ ops) = log_publishes-run (apply c op) ops ∙ log_publishes-apply c op

  NoDup-after :
      (subs : List (Text × ℕ)) (op : Operation) → NoDup subs → NoDup (subscriptions_after subs op)
  unfolding subscriptions_after
  NoDup-after subs (subscribes topic qos) h = NoDup-register subs topic qos h
  NoDup-after subs (connects credentials) h = h
  NoDup-after subs disconnects h = h
  NoDup-after subs (publishes topic payload qos retained) h = h
  NoDup-after subs (loses_connection cause) h = h

  registered-after :
      (subs : List (Text × ℕ)) (topic : Text) (op : Operation)
      → registered subs topic ≡ true
      → registered (subscriptions_after subs op) topic ≡ true
  unfolding subscriptions_after
  registered-after subs topic (subscribes t qos) h = registered_stays subs topic t qos h
  registered-after subs topic (connects credentials) h = h
  registered-after subs topic disconnects h = h
  registered-after subs topic (publishes t payload qos retained) h = h
  registered-after subs topic (loses_connection cause) h = h

  NoDup-run :
      (c : Client paho) (ops : List Operation)
      → NoDup c.subscriptions
      → NoDup (run c ops).subscriptions
  unfolding run
  NoDup-run c [] h = h
  NoDup-run c (op ∷ ops) h =
      NoDup-run (apply c op) ops (rw (subscriptions-apply c op) (NoDup-after c.subscriptions op h))

  registered-run :
      (c : Client paho) (topic : Text) (ops : List Operation)
      → registered c.subscriptions topic ≡ true
      → registered (run c ops).subscriptions topic ≡ true
  unfolding run
  registered-run c topic [] h = h
  registered-run c topic (op ∷ ops) h =
      registered-run (apply c op) topic ops
        (rw (subscriptions-apply c op) (registered-after c.subscriptions topic op h))

  run-topics :
      (c : Client paho) (ops : List Operation)
      → All (λ t. registered (run c ops).subscriptions t ≡ true) (topics ops)
  unfolding run
  run-topics c [] = tt
  run-topics c (subscribes topic qos ∷ ops) = (
    registered-run (apply c (subscribes topic qos)) topic ops (
        rw (subscriptions-apply c (subscribes topic qos))
          (unfold subscriptions_after in registered-register c.subscriptions topic qos)),
    run-topics (apply c (subscribes topic qos)) ops,
  )
  run-topics c (connects credentials ∷ ops) = run-topics (apply c (connects credentials)) ops
  run-topics c (disconnects ∷ ops) = run-topics (apply c disconnects) ops
  run-topics c (publishes topic payload qos retained ∷ ops) =
      run-topics (apply c (publishes topic payload qos retained)) ops
  run-topics c (loses_connection cause ∷ ops) = run-topics (apply c (loses_connection cause)) ops

  -- After any calls on a client that starts without a topic twice, no topic is registered twice, and
  -- every topic that was subscribed to is registered, even if the client was not connected then
  -- or has lost its connection since.
  pub run-Registered :
      (c : Client paho) (ops : List Operation)
      → NoDup c.subscriptions
      → NoDup (run c ops).subscriptions
        × All (λ t. registered (run c ops).subscriptions t ≡ true) (topics ops)
  run-Registered c ops h = (NoDup-run c ops h, run-topics c ops)

  log_failure_lem :
      (c : Client paho)
      → ((log_failure paho c).connected ≡ c.connected)
        × ((log_failure paho c).last ≡ c.last)
        × ((log_failure paho c).subscriptions ≡ c.subscriptions)
  unfolding log_failure
  log_failure_lem c = ground arith

  -- What a subscription leaves as it was, and what it registers.
  pub subscribe_lem :
      (c : Client paho) (topic : Text) (qos : ℕ)
      → let c' = (subscribe paho c topic qos).1 in
        (c'.connected ≡ c.connected)
        × (c'.last ≡ c.last)
        × (c'.subscriptions ≡ register c.subscriptions topic qos)
  unfolding subscribe
  subscribe_lem c topic qos = elim (Bool-cases (is_connected paho c)) [
    | inl h ↦ rw (h, subscribe) (refl, refl, refl)
    | inr h ↦
        rw (h, subscribe)
          (log_failure_lem (record c { subscriptions = register c.subscriptions topic qos }))
  ]

  -- A connection that succeeds.
  pub connect_lem :
      (c : Client paho) (credentials : Credentials)
      → (connect paho c credentials).0 ≡ true
      → ((connect paho c credentials).1.connected ≡ true)
        × ((connect paho c credentials).1.last ≡ credentials)
        × ((paho.connect (connect_options c.settings credentials) c.client).0 ≡ 0)
  unfolding connect on_connected
  connect_lem c credentials h =
      elim (Bool-cases ((paho.connect (connect_options c.settings credentials) c.client).0 == 0)) [
        | inl e ↦ simp e (refl, refl, (==_iff _ 0).0 e)
        | inr e ↦ let q : false ≡ true = (rw (e, connect) at h) in cc
      ]
