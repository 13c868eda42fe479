-- ===== src/LogCollector/Tests.antt =====
-- The theorems about the collector of logs, for a journal of two lines and a client that refuses.
use orbis_agent_desktop.Base.{
  ℕ, ◌≡◌, refl, Bool, false, List, [], ◌∷◌, ◌++◌, some, none, Text, text, flatten, All, arith,
}
use orbis_agent_desktop.Executor.Tests.{lenient, lenient-AlwaysDumps}
use orbis_agent_desktop.LocalBuffer.Tests.{table_db, table_db-Laws, table_db-NeverFails, two_rows}
use orbis_agent_desktop.Plugins.{LoadedPlugin, Collected, null_pointer}
use orbis_agent_desktop.LogCollector.System.{LogEntry, Settings, SystemLog, event_log}
use orbis_agent_desktop.LogCollector.{finished, publish_loop, send, gather}
use orbis_agent_desktop.LogCollector.Batches.{Sized, deliver, publish_loop_lem}
use orbis_agent_desktop.LogCollector.Levels.{Accepted, gather-Accepted}
use orbis_agent_desktop.LogCollector.Wiring.{publish, store_fn, row_of, send-twice}

abbrev entry : Text → LogEntry
entry message = record {
  device_id = text "d";
  timestamp = text "t";
  level = text "INFO";
  source = text "s";
  message = message;
  metadata_json = text "{}";
}

-- A world that remembers the payloads that it was given, and takes none.
abbrev refuse : List Text → Text → Text → Bool × List Text
refuse w topic payload = (false, payload ∷ w)

abbrev remember : List Text → Text → Text → List Text
remember w topic payload = payload ∷ w

abbrev settings : Settings
settings = record { device_id = text "d"; log_levels = text "INFO" ∷ []; now = λ n. n ∷ [] }

abbrev silent : LoadedPlugin → Collected
silent p = null_pointer

-- A buffer of the event log: an error, which the settings refuse, and two other events.
abbrev events : SystemLog
events = event_log (
    some (
      (record { event_type = 1; event_id = 7; following = text "a" }
        ∷ record { event_type = 4; event_id = 8; following = text "b" }
        ∷ record { event_type = 8; event_id = 9; following = text "c" }
        ∷ [])
      ∷ []))

abbrev offline : ℕ → Text → Text → Bool × ℕ
offline n topic payload = (false, n)

publish_loop_lem_example :
    let entries = entry (text "a") ∷ entry (text "b") ∷ [] in
    (bs : List (List LogEntry)) × (flatten bs ≡ entries)
    × All Sized bs
    × (publish_loop lenient refuse remember 3 (text "t") entries 0 []
        ≡ (deliver lenient lenient-AlwaysDumps refuse remember (text "t") bs [], finished))
publish_loop_lem_example =
    publish_loop_lem lenient lenient-AlwaysDumps refuse remember (text "t")
      (entry (text "a") ∷ entry (text "b") ∷ []) []

gather-Accepted_example : All (Accepted settings) (gather lenient settings silent events none).0
gather-Accepted_example = gather-Accepted lenient settings silent events none

send-twice_example :
    (first second : ℕ) × ((send lenient
        (publish table_db offline 9)
        (store_fn table_db offline 9)
        (text "t")
        (text "p")
        (0, two_rows)).1.contents
      ≡ (two_rows.contents ++ row_of table_db offline 9 first (text "t") (text "p") ∷ [])
        ++ row_of table_db offline 9 second (text "t") (text "p") ∷ [])
send-twice_example =
    send-twice table_db offline 9 table_db-Laws table_db-NeverFails lenient 0 two_rows (text "t")
      (text "p") refl (omega arith)
