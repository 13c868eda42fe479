-- ===== src/SyslogPlugin/Tests.antt =====
-- A journal of two lines, read by the plugin and by the collector.
use orbis_agent_desktop.Base.{◌≡◌, refl, [], ◌∷◌, text, map}
use orbis_agent_desktop.Executor.Tests.{lenient}
use orbis_agent_desktop.LogCollector.System.{Settings, from_lines}
use orbis_agent_desktop.SyslogPlugin.{entries}
use orbis_agent_desktop.SyslogPlugin.Equivalence.{
  DefaultFree, of_plugin, of_collector, entries-from_lines,
}

abbrev settings : Settings
settings = record { device_id = text "d"; log_levels = []; now = λ n. n ∷ [] }

lenient-DefaultFree : DefaultFree lenient
lenient-DefaultFree j key default other what e = e

entries-from_lines_example :
    map of_plugin (entries lenient (text "6" ∷ text "x" ∷ text "3" ∷ []))
    ≡ map of_collector (from_lines lenient settings 0 (text "6" ∷ text "x" ∷ text "3" ∷ []))
entries-from_lines_example =
    entries-from_lines lenient lenient-DefaultFree settings refl 0
      (text "6" ∷ text "x" ∷ text "3" ∷ [])
