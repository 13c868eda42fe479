-- ===== src/Mqtt/Inbound.antt =====
-- `onMessageArrived` of src/mqtt/MQTTClient.cpp and the callback that the executor registers with
-- `setMessageCallback`. The messages that Paho frees are not modelled.
use orbis_agent_desktop.Base.{ℕ, ◌≡◌, refl, ap, ◌∙◌, ◌≢◌, List, [], ◌∷◌, Option, none, some, Text}
use orbis_agent_desktop.Executor.Inbox.{on_message, on_message_other_device}
use orbis_agent_desktop.Topics.{topic_for, topic_commands_fmt}

-- A callback gives the world after it, an exception included; a message without one is dropped. The
-- result is the 1 that tells Paho that the message was handled.
pub on_message_arrived : {W : Type 0} → Option (W → Text → Text → W) → W → Text → Text → W × ℕ
on_message_arrived none w topic payload = (w, 1)
on_message_arrived (some callback) w topic payload = (callback w topic payload, 1)

-- The messages that arrive, one after the other.
pub arrivals : {W : Type 0} → Option (W → Text → Text → W) → W → List (Text × Text) → W
unfolding on_message_arrived
arrivals callback w [] = w
arrivals callback w ((topic, payload) ∷ messages) =
    arrivals callback (on_message_arrived callback w topic payload).0 messages

-- The constructor of the executor registers its callback.
pub executor_callback : Text → Option (List Text → Text → Text → List Text)
executor_callback device_id = some (λ queue topic payload. on_message device_id queue topic payload)

-- Messages on the topic of a device for commands.
abbrev pub commands_of : Text → List Text → List (Text × Text)
commands_of device_id [] = []
commands_of device_id (payload ∷ payloads) =
    (topic_for topic_commands_fmt device_id, payload) ∷ commands_of device_id payloads

-- Whatever commands arrive for another device, and however many, the queue stays as it was.
pub arrivals_other_device :
    (device_id other : Text) (queue payloads : List Text)
    → other ≢ device_id
    → arrivals (executor_callback device_id) queue (commands_of other payloads) ≡ queue
unfolding arrivals on_message_arrived executor_callback
arrivals_other_device device_id other queue [] h = refl
arrivals_other_device device_id other queue (payload ∷ payloads) h =
    ap (λ q. arrivals (executor_callback device_id) q (commands_of other payloads))
      (on_message_other_device device_id other payload queue h)
    ∙ arrivals_other_device device_id other queue payloads h
