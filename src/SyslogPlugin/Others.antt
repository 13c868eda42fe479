-- ===== src/SyslogPlugin/Others.antt =====
-- src/plugins/syslog_collector/syslog_collector.cpp for macOS and Windows. The output of `log show` and the
-- buffers of the event logs are parameters.
use orbis_agent_desktop.Base.{
  ℕ, ◌+◌, ◌%◌, ◌≤◌, List, [], ◌∷◌, ◌++◌, Option, none, some, Text, text, is_empty, if◌then◌else◌,
  leb, length, length-append, flatten, map, Bool-cases, inl, inr, arith,
}
use orbis_agent_desktop.Base.Int.{pos}
use orbis_agent_desktop.Json.{JsonLib, Result, ok, err, Result-cases}
use orbis_agent_desktop.LogCollector.System.{EventRecord, event_level, message_level}

abbrev max_entries : ℕ
max_entries = 50

-- The fields of an element of the array for macOS.
record Message : Type 0 where
  level : Text
  message : Text
  category : Text

-- The fields of an element of the array for Windows.
record Event : Type 0 where
  level : Text
  message : Text
  log : Text
  event_id : ℕ

event_of : Text → EventRecord → Event
event_of log rec = record {
  level = event_level rec.event_type;
  message = rec.following;
  log = log;
  event_id = rec.event_id % 65536;
}

-- The two loops of a log, with the number of its entries so far: both go on below 50.
events_from : Text → ℕ → List EventRecord → List Event
unfolding event_of
events_from log count [] = []
events_from log count (rec ∷ recs) =
    let skipped = events_from log count recs in
    let more = events_from log (count + 1) recs in
    if leb max_entries count
    then []
    else if is_empty rec.following
    then skipped
    else event_of log rec ∷ more

-- The loop over the logs, each with its buffers; `none` is a log that does not open.
events_of : List (Text × Option (List (List EventRecord))) → List Event
unfolding events_from
events_of [] = []
events_of ((log, none) ∷ logs) = events_of logs
events_of ((log, some buffers) ∷ logs) = events_from log 0 (flatten buffers) ++ events_of logs

-- From the buffers of the two logs that are read.
gather_events : Option (List (List EventRecord)) → Option (List (List EventRecord)) → List Event
unfolding events_of
gather_events system application =
    events_of ((text "System", system) ∷ (text "Application", application) ∷ [])

length-events_from :
    (log : Text) (count : ℕ) (recs : List EventRecord)
    → count ≤ max_entries
    → count + length (events_from log count recs) ≤ max_entries
unfolding events_from
length-events_from log count [] h = omega (arith, h)
length-events_from log count (rec ∷ recs) h = elim (Bool-cases (leb max_entries count)) [
  | inl full ↦ rw full (omega (arith, h))
  | inr room ↦ elim (Bool-cases (is_empty rec.following)) [
    | inl e ↦ rw room (rw e (length-events_from log count recs h))
    | inr e ↦
        rw room
          (rw e (omega (arith, length-events_from log (count + 1) recs (ground (arith, room)))))
  ]
]

-- What a log adds to the entries: 50 at most, and none where it does not open.
length-events_of :
    (log : Text) (buffers : Option (List (List EventRecord)))
    (logs : List (Text × Option (List (List EventRecord))))
    → length (events_of ((log, buffers) ∷ logs)) ≤ max_entries + length (events_of logs)
unfolding events_of
length-events_of log none logs = omega arith
length-events_of log (some buffers) logs = omega (
  arith,
  length-append (events_from log 0 (flatten buffers)) (events_of logs),
  length-events_from log 0 (flatten buffers) (omega arith),
)

-- However many records the logs have, a collection has 100 entries at most.
length-gather_events :
    (system application : Option (List (List EventRecord)))
    → length (gather_events system application) ≤ 100
unfolding gather_events
length-gather_events system application = omega (
  arith,
  length-events_of (text "System") system ((text "Application", application) ∷ []),
  length-events_of (text "Application") application [],
)

module _ (json : JsonLib) where
  item_message : json.Value → Result (Option Message)
  item_message item = elim (json.value_text item (text "eventMessage") []) [
    | err what ↦ err what
    | ok msg ↦ elim (json.value_text item (text "category") (text "system")) [
      | err what ↦ err what
      | ok cat ↦ elim (json.value_text item (text "messageType") (text "Default")) [
        | err what ↦ err what
        | ok type_name ↦
            if is_empty msg
            then ok none
            else ok
                (some (record { level = message_level type_name; message = msg; category = cat }))
      ]
    ]
  ]

  -- The loop over the items, with the number of entries so far; an exception ends it.
  messages_from : ℕ → List json.Value → List Message
  unfolding item_message
  messages_from count [] = []
  messages_from count (item ∷ items) =
      let taken : List Message = elim (item_message item) [
        | err what ↦ []
        | ok none ↦ messages_from count items
        | ok (some m) ↦ m ∷ messages_from (count + 1) items
      ] in
      if leb max_entries count then [] else taken

  messages_of : Text → List Message
  unfolding messages_from
  messages_of output = elim (json.parse output) [
    | err what ↦ []
    | ok root ↦ elim (json.elements root) [ none ↦ [] | some items ↦ messages_from 0 items ]
  ]

  entry_doc : Text → Text → List (Text × json.Value) → json.Value
  entry_doc level message metadata = json.object (
      (text "source", json.of_text (text "syslog_plugin"))
      ∷ (text "level", json.of_text level)
      ∷ (text "message", json.of_text message)
      ∷ (text "metadata", json.object metadata)
      ∷ [])

  message_doc : Message → json.Value
  unfolding entry_doc
  message_doc m = entry_doc m.level m.message ((text "category", json.of_text m.category) ∷ [])

  event_doc : Event → json.Value
  unfolding entry_doc
  event_doc e =
      entry_doc e.level e.message
        ((text "log", json.of_text e.log) ∷ (text "event_id", json.of_int (pos e.event_id)) ∷ [])

  collected : Result Text → Text
  collected (ok result) = result
  collected (err what) = text "[]"

  -- `none` is a pipe that does not open.
  collect_mac_os : Option Text → Text
  unfolding collected messages_of message_doc
  collect_mac_os none = collected (json.dump (json.array []))
  collect_mac_os (some output) =
      collected (json.dump (json.array (map message_doc (messages_of output))))

  collect_windows : Option (List (List EventRecord)) → Option (List (List EventRecord)) → Text
  unfolding collected gather_events event_doc
  collect_windows system application =
      collected (json.dump (json.array (map event_doc (gather_events system application))))

  length-messages_from :
      (count : ℕ) (items : List json.Value)
      → count ≤ max_entries
      → count + length (messages_from count items) ≤ max_entries
  unfolding messages_from
  length-messages_from count [] h = omega (arith, h)
  length-messages_from count (item ∷ items) h = elim (Bool-cases (leb max_entries count)) [
    | inl full ↦ rw (full, messages_from) (omega (arith, h))
    | inr room ↦ elim (Result-cases (item_message item)) [
      | inl (what, e) ↦ rw (e, messages_from) (rw room (omega (arith, h)))
      | inr (none, e) ↦ rw (e, messages_from) (rw room (length-messages_from count items h))
      | inr (some m, e) ↦
          rw (e, messages_from)
            (rw room (omega (arith, length-messages_from (count + 1) items (ground (arith, room)))))
    ]
  ]
