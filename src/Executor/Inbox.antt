-- ===== src/Executor/Inbox.antt =====
-- The inbox of the executor: the callback of the MQTT client and the queue that the worker drains.
use orbis_agent_desktop.Base.{
  ◌≢◌, Text, text, text_eq, text_eq_iff, Bool, true, false, ◌||◌, List, [], ◌∷◌, ◌++◌, ◌≡◌, refl,
  sym, ◌∙◌, ◌⊎◌, inl, inr, if◌then◌else◌,
}
use mathlib.Core.Bool.{false≢true}
use orbis_agent_desktop.Topics.{
  topic_for, topic_commands_fmt, topic_update_fmt, topic_for-commands, topic_for-update,
  device_topic, device_topic-injective, commands-ne-update,
}

-- `processCommand` ignores the topic; the front of the queue is the head of the list.
unfoldable pub process_command : List Text → Text → List Text
process_command queue payload = queue ++ payload ∷ []

-- The callback that the constructor registers.
pub on_message : Text → List Text → Text → Text → List Text
on_message device_id queue topic payload =
    let commands_topic = topic_for topic_commands_fmt device_id in
    let update_topic = topic_for topic_update_fmt device_id in
    if text_eq topic commands_topic || text_eq topic update_topic
    then process_command queue payload
    else queue

-- A message on the device's own commands or update topic goes to the end of the queue; any other
-- message leaves the queue as it was.
pub on_message-routes :
    (device_id topic payload : Text) (queue : List Text)
    → (((topic ≡ device_topic device_id (text "/commands"))
          ⊎ (topic ≡ device_topic device_id (text "/update")))
        × (on_message device_id queue topic payload ≡ queue ++ payload ∷ []))
      ⊎ ((topic ≢ device_topic device_id (text "/commands"))
          × (topic ≢ device_topic device_id (text "/update"))
          × (on_message device_id queue topic payload ≡ queue))
unfolding on_message process_command
on_message-routes device_id topic payload queue = rw topic_for-commands (
    rw topic_for-update (
      go (text_eq topic (device_topic device_id (text "/commands")))
        (text_eq topic (device_topic device_id (text "/update"))) refl refl))
  where
    go :
        (b c : Bool)
        → text_eq topic (device_topic device_id (text "/commands")) ≡ b
        → text_eq topic (device_topic device_id (text "/update")) ≡ c
        → (((topic ≡ device_topic device_id (text "/commands"))
              ⊎ (topic ≡ device_topic device_id (text "/update")))
            × ((if b || c then queue ++ payload ∷ [] else queue) ≡ queue ++ payload ∷ []))
          ⊎ ((topic ≢ device_topic device_id (text "/commands"))
              × (topic ≢ device_topic device_id (text "/update"))
              × ((if b || c then queue ++ payload ∷ [] else queue) ≡ queue))
    go true c p q = inl (inl ((text_eq_iff _ _).0 p), refl)
    go false true p q = inl (inr ((text_eq_iff _ _).0 q), refl)
    go false false p q = inr (differs _ p, differs _ q, refl)
      where
        differs : (t : Text) → text_eq topic t ≡ false → topic ≢ t
        differs t p e = false≢true (sym p ∙ (text_eq_iff topic t).1 e)

-- A message on a topic of another device for commands never reaches the queue.
pub on_message_other_device :
    (device_id other payload : Text) (queue : List Text)
    → other ≢ device_id
    → on_message device_id queue (topic_for topic_commands_fmt other) payload ≡ queue
on_message_other_device device_id other payload queue h =
    elim (on_message-routes device_id (topic_for topic_commands_fmt other) payload queue) [
      | inl (inl e, q) ↦ absurd (
          h (
            device_topic-injective other device_id (text "/commands")
              (sym (topic_for-commands other) ∙ e)))
      | inl (inr e, q) ↦
          absurd (commands-ne-update other device_id (sym (topic_for-commands other) ∙ e))
      | inr (a, b, q) ↦ q
    ]
