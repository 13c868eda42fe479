-- ===== src/LogCollector/Levels.antt =====
-- Which entries a round takes.
use orbis_agent_desktop.Base.{
  ℕ, ◌+◌, ◌≡◌, refl, true, List, [], ◌∷◌, Option, none, some, Text, All, flatten, Bool-cases, arith,
  inl, Option-cases, inr, ◌<◌, leb, length, ◌≤◌,
}
use orbis_agent_desktop.Json.{JsonLib, ok, Result-cases}
use orbis_agent_desktop.Plugins.{PluginLogEntry, LoadedPlugin, Collected, collect_all}
use orbis_agent_desktop.LogCollector.{from_plugins, gather, collect_from_plugins}
use orbis_agent_desktop.LogCollector.System.{
  LogEntry, Settings, level_allowed, event_level, system_entry, from_lines, EventRecord,
  from_events, event_log_max, SystemLog, journalctl, log_show, event_log, message_entry,
  from_messages, from_text, collect_from_system,
}

-- An entry of this device at a level that the settings accept.
abbrev pub Accepted : Settings → LogEntry → Type 0
Accepted cfg e = (level_allowed cfg.log_levels e.level ≡ true) × (e.device_id ≡ cfg.device_id)

from_plugins-Accepted :
    (cfg : Settings) (n : ℕ) (pes : List PluginLogEntry)
    → All (Accepted cfg) (from_plugins cfg n pes)
unfolding from_plugins
from_plugins-Accepted cfg n [] = tt
from_plugins-Accepted cfg n (pe ∷ pes) =
    let skipped = from_plugins-Accepted cfg n pes in
    let rest = from_plugins-Accepted cfg (n + 1) pes in
    elim (Bool-cases (level_allowed cfg.log_levels pe.level)) [
      | inl e ↦ rw e ((e, refl), rest)
      | inr e ↦ rw e skipped
    ]

from_events-Accepted :
    (cfg : Settings) (n : ℕ) (recs : List EventRecord) → All (Accepted cfg) (from_events cfg n recs)
unfolding from_events
from_events-Accepted cfg n [] = tt
from_events-Accepted cfg n (rec ∷ recs) =
    let skipped = from_events-Accepted cfg n recs in
    let more = from_events-Accepted cfg (n + 1) recs in
    elim (Bool-cases (level_allowed cfg.log_levels (event_level rec.event_type))) [
      | inr e ↦ rw e skipped
      | inl e ↦ elim (Bool-cases (leb event_log_max (n + 1))) [
        | inl last ↦ rw e (rw last ((e, refl), tt))
        | inr room ↦ rw e (rw room ((e, refl), more))
      ]
    ]

-- The event log gives 50 entries at most.
length-from_events :
    (cfg : Settings) (n : ℕ) (recs : List EventRecord)
    → n < event_log_max
    → n + length (from_events cfg n recs) ≤ event_log_max
unfolding from_events
length-from_events cfg n [] h = omega (arith, h)
length-from_events cfg n (rec ∷ recs) h =
    let skipped = length-from_events cfg n recs h in
    elim (Bool-cases (level_allowed cfg.log_levels (event_level rec.event_type))) [
      | inr e ↦ rw e skipped
      | inl e ↦ elim (Bool-cases (leb event_log_max (n + 1))) [
        | inl last ↦ rw e (rw last (omega (arith, h)))
        | inr room ↦
            rw e
              (rw room (omega (arith, length-from_events cfg (n + 1) recs (ground (arith, room)))))
      ]
    ]

module _ (json : JsonLib) where
  system_entry-Accepted :
      (cfg : Settings) (timestamp line : Text) (e : LogEntry)
      → system_entry json cfg timestamp line ≡ some e
      → Accepted cfg e
  unfolding system_entry
  system_entry-Accepted cfg timestamp line e h = ground arith

  from_lines-Accepted :
      (cfg : Settings) (n : ℕ) (lines : List Text)
      → All (Accepted cfg) (from_lines json cfg n lines)
  unfolding from_lines
  from_lines-Accepted cfg n [] = tt
  from_lines-Accepted cfg n (line ∷ lines) =
      elim (Option-cases (system_entry json cfg (cfg.now n) line)) [
        | inl e ↦ rw (e, from_lines) (from_lines-Accepted cfg n lines)
        | inr (x, e) ↦
            rw (e, from_lines)
              (
                system_entry-Accepted cfg (cfg.now n) line x e,
                from_lines-Accepted cfg (n + 1) lines,
              )
      ]

  message_entry-Accepted :
      (cfg : Settings) (timestamp : Text) (item : json.Value) (e : LogEntry)
      → message_entry json cfg timestamp item ≡ ok (some e)
      → Accepted cfg e
  unfolding message_entry
  message_entry-Accepted cfg timestamp item e h = ground arith

  from_messages-Accepted :
      (cfg : Settings) (n : ℕ) (items : List json.Value)
      → All (Accepted cfg) (from_messages json cfg n items)
  unfolding from_messages
  from_messages-Accepted cfg n [] = tt
  from_messages-Accepted cfg n (item ∷ items) =
      elim (Result-cases (message_entry json cfg (cfg.now n) item)) [
        | inl (what, e) ↦ rw (e, from_messages) tt
        | inr (none, e) ↦ rw (e, from_messages) (from_messages-Accepted cfg n items)
        | inr (some x, e) ↦
            rw (e, from_messages)
              (
                message_entry-Accepted cfg (cfg.now n) item x e,
                from_messages-Accepted cfg (n + 1) items,
              )
      ]

  from_text-Accepted :
      (cfg : Settings) (output : Text) → All (Accepted cfg) (from_text json cfg output)
  unfolding from_text
  from_text-Accepted cfg output = elim (Result-cases (json.parse output)) [
    | inl (what, e) ↦ rw (e, from_text) tt
    | inr (v, e) ↦ elim (Option-cases (json.elements v)) [
      | inl n ↦ rw (e, from_text) (rw n tt)
      | inr (items, n) ↦ rw (e, from_text) (rw n (from_messages-Accepted cfg 0 items))
    ]
  ]

  collect_from_system-Accepted :
      (cfg : Settings) (system : SystemLog)
      → All (Accepted cfg) (collect_from_system json cfg system)
  unfolding collect_from_system
  collect_from_system-Accepted cfg (journalctl none) = tt
  collect_from_system-Accepted cfg (journalctl (some lines)) = from_lines-Accepted cfg 0 lines
  collect_from_system-Accepted cfg (log_show none) = tt
  collect_from_system-Accepted cfg (log_show (some output)) = from_text-Accepted cfg output
  collect_from_system-Accepted cfg (event_log none) = tt
  collect_from_system-Accepted cfg (event_log (some buffers)) =
      from_events-Accepted cfg 0 (flatten buffers)

  -- Every entry of a round, from the plugins or from the log of Linux, macOS or Windows, is at a level
  -- that the settings accept and carries the device's id.
  pub gather-Accepted :
      (cfg : Settings) (collect : LoadedPlugin → Collected) (system : SystemLog)
      (loader : Option (List LoadedPlugin))
      → All (Accepted cfg) (gather json cfg collect system loader).0
  unfolding gather collect_from_plugins
  gather-Accepted cfg collect system none = collect_from_system-Accepted cfg system
  gather-Accepted cfg collect system (some plugins) =
      from_plugins-Accepted cfg 0 (flatten (collect_all json collect plugins).batches)
