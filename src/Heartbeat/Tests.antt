-- ===== src/Heartbeat/Tests.antt =====
-- A heartbeat of ten seconds that is stopped in the twenty-fifth.
use orbis_agent_desktop.Base.{
  ◌+◌, ◌-◌, ◌/◌, ◌%◌, ◌^◌, if◌then◌else◌, ◌==◌, ℕ, ◌*◌, ◌≤◌, ◌<◌, ◌≡◌, refl, [], ◌∷◌, ◌++◌, some,
  text, arith,
}
use orbis_agent_desktop.Base.Int.{pos, negsuc}
use orbis_agent_desktop.Executor.Tests.{lenient, lenient-AlwaysDumps}
use orbis_agent_desktop.Heartbeat.{Metrics, run}
use orbis_agent_desktop.Heartbeat.Linux.{zero_percent, without}
use orbis_agent_desktop.Heartbeat.Windows.{
  to_ull, FileTime, SystemTimes, InRange, get_cpu_percent, get_cpu_percent-InRange,
}
use orbis_agent_desktop.Heartbeat.Schedule.{published, online_beats, run_lem}

abbrev metrics : ℕ → Metrics lenient
metrics now = record {
  timestamp = now ∷ [];
  uptime_sec = pos now;
  hostname = text "h";
  plateforme = text "linux";
  os_version = text "Linux";
  architecture = text "x86_64";
  cpu_percent = text "1";
  ram_percent = text "2";
  disk_percent = text "3";
  network_type = text "WIFI";
  battery_level = negsuc 0;
  battery_charging = text "false";
}

run_lem_example :
    (n : ℕ) × (run lenient (text "d") 10 metrics 25 30
      ≡ some (
          online_beats lenient lenient-AlwaysDumps (text "d") 10 metrics n 0
          ++ published lenient lenient-AlwaysDumps (text "d") 10 metrics 25 (text "offline") ∷ []))
    × (25 ≤ n * 10)
    × (n * 10 < 35)
run_lem_example =
    run_lem lenient lenient-AlwaysDumps (text "d") 10 metrics 25 30 (omega arith) (omega arith)

-- The first sample of a processor is near the wrap of its counters, in the second they are past it.
abbrev at : ℕ → FileTime
at t = record { high = t / 2 ^ 32; low = t % 2 ^ 32 }

abbrev before_wrap : SystemTimes
before_wrap = record { idle = at 1000; kernel = at (2 ^ 64 - 10); user = at 5000 }

abbrev after_wrap : SystemTimes
after_wrap = record { idle = at 1020; kernel = at 20; user = at 5010 }

get_cpu_percent-InRange_example :
    (get_cpu_percent before_wrap after_wrap
      ≡ (if 30 + 10 == 0 then zero_percent else without 20 (30 + 10)))
    × InRange (get_cpu_percent before_wrap after_wrap)
unfolding to_ull
get_cpu_percent-InRange_example =
    get_cpu_percent-InRange before_wrap after_wrap 20 30 10 (omega arith, refl) (omega arith, refl)
      (omega arith, refl) (omega arith) (omega arith)
