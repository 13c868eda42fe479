-- ===== src/SyslogPlugin/Equivalence.antt =====
-- The plugin and the collector's own reading of the journal.
use orbis_agent_desktop.Base.{
  ℕ, ◌+◌, ◌≡◌, refl, ap, List, [], ◌∷◌, Option, none, some, Text, text, map, Option-cases, inl, inr,
  arith, is_empty, Bool-cases,
}
use orbis_agent_desktop.Base.Int.{ℤ, pos, negsuc}
use orbis_agent_desktop.Base.Stoi.{stoi}
use orbis_agent_desktop.Json.{JsonLib, ok, err, Result-cases}
use orbis_agent_desktop.LogCollector.System.{
  LogEntry, Settings, level_of, level_allowed, system_entry, from_lines,
}
use orbis_agent_desktop.SyslogPlugin.{Entry, map_level, line_entry, entries}

-- What the two have in common: the source, the level and the message.
abbrev pub of_plugin : Entry → Text × (Text × Text)
of_plugin e = (e.source, (e.level, e.message))

abbrev pub of_collector : LogEntry → Text × (Text × Text)
of_collector e = (e.source, (e.level, e.message))

map_level_lem : (p : ℤ) → map_level p ≡ level_of p
unfolding map_level level_of
map_level_lem (negsuc n) = refl
map_level_lem (pos n) = ground arith

abbrev briefly {ℓ} :
    {A : Type ℓ} → (A → Text × (Text × Text)) → Option A → Option (Text × (Text × Text))
briefly f none = none
briefly f (some a) = some (f a)

-- What `j.value(key, default)` documents: whether it throws does not depend on the default.
abbrev pub DefaultFree : JsonLib → Type 0
DefaultFree json =
    (j : json.Value) (key default other what : Text)
    → json.value_text j key default ≡ err what
    → json.value_text j key other ≡ err what

module _ (json : JsonLib) (default_free : DefaultFree json) (cfg : Settings)
    (all : cfg.log_levels ≡ []) where
  -- The default of the identifier is another in the two.
  both :
      (j : json.Value) (ident : Text)
      → json.value_text j (text "SYSLOG_IDENTIFIER") (text "system") ≡ ok ident
      → (other : Text) × (json.value_text j (text "SYSLOG_IDENTIFIER") (text "syslog_plugin")
          ≡ ok other)
  both j ident g =
      elim (Result-cases (json.value_text j (text "SYSLOG_IDENTIFIER") (text "syslog_plugin"))) [
        | inr h ↦ h
        | inl (w, h) ↦
            let q =
              default_free j (text "SYSLOG_IDENTIFIER") (text "syslog_plugin") (text "system") w
                h in
            cc
      ]

  line_lem :
      (timestamp line : Text)
      → briefly of_plugin (line_entry json line)
        ≡ briefly of_collector (system_entry json cfg timestamp line)
  unfolding line_entry system_entry level_allowed
  line_lem timestamp line = elim (Result-cases (json.parse line)) [
    | inl (w, e) ↦ rw (e, line_entry, system_entry) refl
    | inr (j, e) ↦
        rw (e, line_entry, system_entry)
          (elim (Result-cases (json.value_text j (text "MESSAGE") [])) [
            | inl (w, f) ↦ rw f refl
            | inr (msg, f) ↦
                rw f
                  (elim (Result-cases
                    (json.value_text j (text "SYSLOG_IDENTIFIER") (text "system"))) [
                      | inl (w, g) ↦ rw g (
                          rw
                            (default_free j (text "SYSLOG_IDENTIFIER") (text "system")
                              (text "syslog_plugin") w g)
                            refl)
                      | inr (ident, g) ↦
                          let (other, h) = both j ident g in
                          rw g (
                            rw h
                              (elim (Result-cases
                                (json.value_text j (text "PRIORITY") (text "6"))) [
                                  | inl (w, k) ↦ rw k refl
                                  | inr (prio, k) ↦ rw k (elim (Option-cases (stoi prio)) [
                                    | inl l ↦ rw l refl
                                    | inr (priority, l) ↦ rw l (
                                        rw all (
                                          rw (map_level_lem priority)
                                            (elim (Bool-cases (is_empty msg)) [
                                              | inl b ↦ rw b refl
                                              | inr b ↦ rw b refl
                                            ])))
                                  ])
                                ]))
                    ])
          ])
  ]

  take_line :
      (n : ℕ) (line : Text) (lines : List Text)
      → ((k : ℕ)
          → map of_plugin (entries json lines) ≡ map of_collector (from_lines json cfg k lines))
      → (a : Option Entry) (b : Option LogEntry) → line_entry json line ≡ a
      → system_entry json cfg (cfg.now n) line ≡ b
      → briefly of_plugin a ≡ briefly of_collector b
      → map of_plugin (entries json (line ∷ lines))
        ≡ map of_collector (from_lines json cfg n (line ∷ lines))
  unfolding entries from_lines
  take_line n line lines rest none none e f same =
      rw (e, entries) (rw (f, from_lines, map) (rest n))
  take_line n line lines rest (some a) (some b) e f same =
      let q : of_plugin a ≡ of_collector b = cc in
      rw (e, entries) (rw (f, from_lines) (rw q (ap (λ l. of_collector b ∷ l) (rest (n + 1)))))
  take_line n line lines rest none (some b) e f same = cc
  take_line n line lines rest (some a) none e f same = cc

  -- With the same lines, where the settings accept every level and whether a value of a document is
  -- read does not depend on its default, the plugin and the collector take the same lines, with the
  -- same source, level and message.
  pub entries-from_lines :
      (n : ℕ) (lines : List Text)
      → map of_plugin (entries json lines) ≡ map of_collector (from_lines json cfg n lines)
  unfolding entries from_lines
  entries-from_lines n [] = refl
  entries-from_lines n (line ∷ lines) =
      take_line n line lines (λ k. entries-from_lines k lines) (line_entry json line)
        (system_entry json cfg (cfg.now n) line) refl refl (line_lem (cfg.now n) line)
