-- ===== src/SyslogPlugin.antt =====
-- src/plugins/syslog_collector/syslog_collector.cpp: the plugin that reads the journal, for Linux. What
-- `popen` gives, as the lines that `fgets` reads, is a parameter.
pub mod Equivalence
pub mod Others
pub mod Tests
use orbis_agent_desktop.Base.{
  ℕ, List, [], ◌∷◌, Option, none, some, Text, text, is_empty, if◌then◌else◌, leb, map, ◌==◌,
}
use orbis_agent_desktop.Base.Int.{ℤ, pos, negsuc}
use orbis_agent_desktop.Base.Stoi.{stoi}
use orbis_agent_desktop.Json.{JsonLib, Result, ok, err}

pub map_level : ℤ → Text
map_level (negsuc n) = text "CRITICAL"
map_level (pos priority) =
    if leb priority 2
    then text "CRITICAL"
    else if priority == 3
    then text "ERROR"
    else if priority == 4
    then text "WARNING"
    else if leb priority 6
    then text "INFO"
    else text "DEBUG"

-- The fields of an element of the array.
pub record Entry : Type 0 where
  pub source : Text
  pub level : Text
  pub message : Text
  pub ident : Text

module _ (json : JsonLib) where
  entry_doc : Entry → json.Value
  entry_doc e = json.object (
      (text "source", json.of_text e.source)
      ∷ (text "level", json.of_text e.level)
      ∷ (text "message", json.of_text e.message)
      ∷ (text "metadata", json.object ((text "ident", json.of_text e.ident) ∷ []))
      ∷ [])

  -- The body of the loop: a line that does not parse, has a value of another type or no message is
  -- skipped.
  pub line_entry : Text → Option Entry
  unfolding map_level
  line_entry line = elim (json.parse line) [
    | err what ↦ none
    | ok j ↦ elim (json.value_text j (text "MESSAGE") []) [
      | err what ↦ none
      | ok msg ↦ elim (json.value_text j (text "SYSLOG_IDENTIFIER") (text "system")) [
        | err what ↦ none
        | ok ident ↦ elim (json.value_text j (text "PRIORITY") (text "6")) [
          | err what ↦ none
          | ok prio ↦ elim (stoi prio) [
            | none ↦ none
            | some priority ↦
                if is_empty msg
                then none
                else some (record {
                  source = text "syslog_plugin";
                  level = map_level priority;
                  message = msg;
                  ident = ident;
                })
          ]
        ]
      ]
    ]
  ]

  pub entries : List Text → List Entry
  unfolding line_entry
  entries [] = []
  entries (line ∷ lines) = elim (line_entry line) [
    | none ↦ entries lines
    | some e ↦ e ∷ entries lines
  ]

  -- `none` is a pipe that does not open.
  pub do_collect : Option (List Text) → Result Text
  unfolding entries entry_doc
  do_collect none = json.dump (json.array [])
  do_collect (some lines) = json.dump (json.array (map entry_doc (entries lines)))

  pub collect : Option (List Text) → Text
  unfolding do_collect
  collect pipe = elim (do_collect pipe) [ ok result ↦ result | err what ↦ text "[]" ]
