-- ===== src/LogCollector/System.antt =====
-- `collectFromSystem` of src/services/LogCollector.cpp, for Linux, macOS and Windows. What the system
-- gives is a parameter: the lines that `journalctl` prints, the text that `log show` prints, and the
-- buffers that `ReadEventLogA` fills.
use orbis_agent_desktop.Base.{
  ℕ, ◌+◌, Bool, true, false, ◌||◌, List, [], ◌∷◌, ◌++◌, Option, none, some, Text, text, text_eq,
  is_empty, if◌then◌else◌, leb, flatten, ◌==◌,
}
use orbis_agent_desktop.Base.Decimal.{nat_to_text}
use orbis_agent_desktop.Base.Int.{ℤ, pos, negsuc}
use orbis_agent_desktop.Base.Stoi.{stoi}
use orbis_agent_desktop.Json.{JsonLib, Result, ok, err}

pub record LogEntry : Type 0 where
  pub device_id : Text
  pub timestamp : Text
  pub level : Text
  pub source : Text
  pub message : Text
  pub metadata_json : Text

pub record Settings : Type 0 where
  pub device_id : Text
  pub log_levels : List Text
  -- The n-th reading of the clock in a round.
  pub now : ℕ → Text

-- `std::find` over the levels.
contains : List Text → Text → Bool
contains [] level = false
contains (l ∷ ls) level = text_eq l level || contains ls level

unfoldable pub level_allowed : List Text → Text → Bool
unfolding contains
level_allowed [] level = true
level_allowed (l ∷ ls) level = contains (l ∷ ls) level

-- The level of a syslog priority.
unfoldable pub level_of : ℤ → Text
level_of (negsuc n) = text "CRITICAL"
level_of (pos n) =
    if leb n 2
    then text "CRITICAL"
    else if leb n 3
    then text "ERROR"
    else if leb n 4
    then text "WARNING"
    else if leb n 6
    then text "INFO"
    else text "DEBUG"

-- `R"({"ident":")" + ident + R"("})"`: the ident is not escaped.
ident_metadata : Text → Text
ident_metadata ident = text "{\"ident\":\"" ++ ident ++ text "\"}"

-- The level of a type of message.
pub message_level : Text → Text
message_level t =
    if text_eq t (text "Debug")
    then text "DEBUG"
    else if text_eq t (text "Fault")
    then text "CRITICAL"
    else if text_eq t (text "Error")
    then text "ERROR"
    else text "INFO"

-- `R"({"category":")" + cat + R"("})"`: the category is not escaped.
category_metadata : Text → Text
category_metadata cat = text "{\"category\":\"" ++ cat ++ text "\"}"

-- An `EVENTLOGRECORD`, with the text that follows its fixed part.
pub record EventRecord : Type 0 where
  pub event_type : ℕ
  pub event_id : ℕ
  pub following : Text

-- `EVENTLOG_ERROR_TYPE` is 1, and `EVENTLOG_WARNING_TYPE` 2.
pub event_level : ℕ → Text
event_level event_type =
    if event_type == 1
    then text "ERROR"
    else if event_type == 2
    then text "WARNING"
    else text "INFO"

abbrev pub event_log_max : ℕ
event_log_max = 50

-- The loop over the records, with the number of entries so far. Its return leaves the loop over the
-- buffers too.
unfoldable pub from_events : Settings → ℕ → List EventRecord → List LogEntry
unfolding event_level
from_events cfg n [] = []
from_events cfg n (rec ∷ recs) =
    let skipped = from_events cfg n recs in
    let more = from_events cfg (n + 1) recs in
    if level_allowed cfg.log_levels (event_level rec.event_type)
    then record {
      device_id = cfg.device_id;
      timestamp = cfg.now n;
      level = event_level rec.event_type;
      source = text "syslog_plugin";
      message = rec.following;
      metadata_json = text "{\"event_id\":" ++ (nat_to_text rec.event_id ++ text "}");
    }
      ∷ (if leb event_log_max (n + 1) then [] else more)
    else skipped

-- What the system has: the lines that `fgets` reads from the pipe of `journalctl`, the output of
-- `log show`, or the buffers of records of the event log; `none` where it does not open.
pub data SystemLog : Type 0 where
  journalctl : Option (List Text) → SystemLog
  log_show : Option Text → SystemLog
  event_log : Option (List (List EventRecord)) → SystemLog

module _ (json : JsonLib) where
  -- The body of the loop over the lines: an exception skips the line.
  unfoldable pub system_entry : Settings → Text → Text → Option LogEntry
  unfolding level_of ident_metadata
  system_entry cfg timestamp line = elim (json.parse line) [
    | err what ↦ none
    | ok j ↦ elim (json.value_text j (text "MESSAGE") []) [
      | err what ↦ none
      | ok msg ↦ elim (json.value_text j (text "SYSLOG_IDENTIFIER") (text "syslog_plugin")) [
        | err what ↦ none
        | ok ident ↦ elim (json.value_text j (text "PRIORITY") (text "6")) [
          | err what ↦ none
          | ok prio_s ↦ elim (stoi prio_s) [
            | none ↦ none
            | some prio ↦
                if level_allowed cfg.log_levels (level_of prio)
                then if is_empty msg
                  then none
                  else some (record {
                    device_id = cfg.device_id;
                    timestamp = timestamp;
                    level = level_of prio;
                    source = text "syslog_plugin";
                    message = msg;
                    metadata_json = ident_metadata ident;
                  })
                else none
          ]
        ]
      ]
    ]
  ]

  unfoldable pub from_lines : Settings → ℕ → List Text → List LogEntry
  from_lines cfg n [] = []
  from_lines cfg n (line ∷ lines) = elim (system_entry cfg (cfg.now n) line) [
    | none ↦ from_lines cfg n lines
    | some e ↦ e ∷ from_lines cfg (n + 1) lines
  ]

  -- The body of the loop for macOS; an exception ends the loop.
  unfoldable pub message_entry : Settings → Text → json.Value → Result (Option LogEntry)
  unfolding message_level category_metadata
  message_entry cfg timestamp item = elim (json.value_text item (text "eventMessage") []) [
    | err what ↦ err what
    | ok msg ↦ elim (json.value_text item (text "category") (text "syslog_plugin")) [
      | err what ↦ err what
      | ok cat ↦ elim (json.value_text item (text "messageType") (text "Default")) [
        | err what ↦ err what
        | ok t ↦
            if level_allowed cfg.log_levels (message_level t)
            then if is_empty msg
              then ok none
              else ok (
                  some (record {
                    device_id = cfg.device_id;
                    timestamp = timestamp;
                    level = message_level t;
                    source = text "syslog_plugin";
                    message = msg;
                    metadata_json = category_metadata cat;
                  }))
            else ok none
      ]
    ]
  ]

  unfoldable pub from_messages : Settings → ℕ → List json.Value → List LogEntry
  from_messages cfg n [] = []
  from_messages cfg n (item ∷ items) = elim (message_entry cfg (cfg.now n) item) [
    | err what ↦ []
    | ok none ↦ from_messages cfg n items
    | ok (some e) ↦ e ∷ from_messages cfg (n + 1) items
  ]

  -- The text of `log show`: a text that is no array has no entries.
  unfoldable pub from_text : Settings → Text → List LogEntry
  unfolding from_messages
  from_text cfg output = elim (json.parse output) [
    | err what ↦ []
    | ok v ↦ elim (json.elements v) [ none ↦ [] | some items ↦ from_messages cfg 0 items ]
  ]

  -- The variants for Linux, macOS and Windows.
  unfoldable pub collect_from_system : Settings → SystemLog → List LogEntry
  unfolding from_lines from_text from_events
  collect_from_system cfg (journalctl none) = []
  collect_from_system cfg (journalctl (some lines)) = from_lines cfg 0 lines
  collect_from_system cfg (log_show none) = []
  collect_from_system cfg (log_show (some output)) = from_text cfg output
  collect_from_system cfg (event_log none) = []
  collect_from_system cfg (event_log (some buffers)) = from_events cfg 0 (flatten buffers)
