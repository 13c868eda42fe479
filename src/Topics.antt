-- ===== src/Topics.antt =====
-- src/constants.hpp: the MQTT topic templates and `topicFor`.
use orbis_agent_desktop.Base.{
  Text, text, find, ◌+◌, ◌≡◌, refl, ◌≢◌, ◌++◌, Option, none, some, take, drop, sym, ◌∙◌, ap,
  append_cancel_left, last, last-append, append_assoc, arith, append_cancel_right, ℕ,
}

abbrev pub topic_register : Text
topic_register = text "devices/register"

abbrev pub topic_register_ack_fmt : Text
topic_register_ack_fmt = text "devices/{}/register_ack"

abbrev pub topic_logs_fmt : Text
topic_logs_fmt = text "devices/{}/logs"

abbrev pub topic_status_fmt : Text
topic_status_fmt = text "devices/{}/status"

abbrev pub topic_commands_fmt : Text
topic_commands_fmt = text "devices/{}/commands"

abbrev pub topic_results_fmt : Text
topic_results_fmt = text "devices/{}/results"

abbrev pub topic_update_fmt : Text
topic_update_fmt = text "devices/{}/update"

abbrev pub topic_update_progress_fmt : Text
topic_update_progress_fmt = text "devices/{}/update_progress"

abbrev pub topic_discovery_fmt : Text
topic_discovery_fmt = text "devices/{}/discovery"

-- Replaces the first "{}" of the format; a format without one stays as it is.
substitute : Text → Text → Option ℕ → Text
substitute t device_id none = t
substitute t device_id (some pos) = take pos t ++ (device_id ++ drop (pos + 2) t)

unfoldable pub topic_for : Text → Text → Text
unfolding substitute find
topic_for fmt device_id = substitute fmt device_id (find (text "{}") fmt)

abbrev pub device_topic : Text → Text → Text
device_topic device_id suffix = text "devices/" ++ (device_id ++ suffix)

pub topic_for-commands :
    (id : Text) → topic_for topic_commands_fmt id ≡ device_topic id (text "/commands")
unfolding topic_for text
topic_for-commands id = refl

pub topic_for-update :
    (id : Text) → topic_for topic_update_fmt id ≡ device_topic id (text "/update")
unfolding topic_for text
topic_for-update id = refl

pub topic_for-status :
    (id : Text) → topic_for topic_status_fmt id ≡ device_topic id (text "/status")
unfolding topic_for text
topic_for-status id = refl

pub topic_for-register_ack :
    (id : Text) → topic_for topic_register_ack_fmt id ≡ device_topic id (text "/register_ack")
unfolding topic_for text
topic_for-register_ack id = refl

-- Whatever stands round the device, two devices have different topics of one kind.
pub device_topic-injective : (a b s : Text) → device_topic a s ≡ device_topic b s → a ≡ b
device_topic-injective a b s h =
    append_cancel_right a b s (append_cancel_left (text "devices/") (a ++ s) (b ++ s) h)

pub commands-ne-update :
    (a b : Text) → device_topic a (text "/commands") ≢ device_topic b (text "/update")
unfolding text
commands-ne-update a b h = ground (
  arith,
  ap last (
      sym (append_assoc (text "devices/") a (text "/commands"))
      ∙ h
      ∙ append_assoc (text "devices/") b (text "/update")),
  last-append (text "devices/" ++ a) b'/' (text "commands"),
  last-append (text "devices/" ++ b) b'/' (text "update"),
)
