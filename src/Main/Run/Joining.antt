-- ===== src/Main/Run/Joining.antt =====
-- What the watchdog and the stop of the services in src/main.cpp do to their threads.
use orbis_agent_desktop.Base.{Bool, true, false, List, [], ◌∷◌, Option, none, some, Text}
use orbis_agent_desktop.LocalBuffer.Database.{Sqlite}
use orbis_agent_desktop.Main.Run.{
  Agent, Part, heartbeat_part, log_collector_part, net_scanner_part, Last, map_service,
  executor_start, start_services, thread_ends, threads_end, watch_all, watchdog, publishes,
  stop_services,
}
use orbis_agent_desktop.Mqtt.{Paho, Client}
use orbis_agent_desktop.Plugins.{LoadedPlugin}
use orbis_agent_desktop.Service.{Service, absent}
use orbis_agent_desktop.Service as Service
use orbis_agent_desktop.Service.Watchdog.{
  Joined, Quiet, construct-Joined, start-Joined, thread_ends-Joined, watch-Joined, stop-Quiet,
}

-- A predicate of a scanner, where there is one.
abbrev pub OfScanner : (Service → Type 0) → Option Service → Type 0
OfScanner P none = Unit {0}
OfScanner P (some s) = P s

map_service-OfScanner :
    (P Q : Service → Type 0) (f : Service → Service)
    → ((s : Service) → P s → Q (f s))
    → (o : Option Service) → OfScanner P o
    → OfScanner Q (map_service f o)
unfolding map_service
map_service-OfScanner P Q f keep none h = tt
map_service-OfScanner P Q f keep (some s) h = keep s h

module _ (paho : Paho) (sqlite : Sqlite) where
  -- A predicate of every service.
  pub record Each (P : Service → Type 0) (a : Agent paho sqlite) : Type 0 where
    pub heartbeat : P a.heartbeat
    pub log_collector : P a.log_collector
    pub net_scanner : OfScanner P a.net_scanner
    pub cmd_executor : P a.cmd_executor

  start_services-Joined :
      (device_id : Text) (scans : Bool) (plugins : List LoadedPlugin) (mqtt : Client paho)
      (db : sqlite.Db)
      → Each Joined (start_services paho sqlite device_id scans plugins mqtt db)
  unfolding start_services executor_start map_service Service.construct
  start_services-Joined device_id true plugins mqtt db =
      let j = start-Joined Service.construct construct-Joined in
      record { heartbeat = j; log_collector = j; net_scanner = j; cmd_executor = j }
  start_services-Joined device_id false plugins mqtt db =
      let j = start-Joined Service.construct construct-Joined in
      record { heartbeat = j; log_collector = j; net_scanner = tt; cmd_executor = j }

  thread_ends-Each :
      (p : Part) (a : Agent paho sqlite) → Each Joined a → Each Joined (thread_ends paho sqlite p a)
  unfolding thread_ends
  thread_ends-Each heartbeat_part a e = record {
    heartbeat = thread_ends-Joined a.heartbeat e.heartbeat;
    log_collector = e.log_collector;
    net_scanner = e.net_scanner;
    cmd_executor = e.cmd_executor;
  }
  thread_ends-Each log_collector_part a e = record {
    heartbeat = e.heartbeat;
    log_collector = thread_ends-Joined a.log_collector e.log_collector;
    net_scanner = e.net_scanner;
    cmd_executor = e.cmd_executor;
  }
  thread_ends-Each net_scanner_part a e = record {
    heartbeat = e.heartbeat;
    log_collector = e.log_collector;
    net_scanner =
        map_service-OfScanner Joined Joined Service.thread_ends thread_ends-Joined a.net_scanner
          e.net_scanner;
    cmd_executor = e.cmd_executor;
  }

  threads_end-Each :
      (ps : List Part) (a : Agent paho sqlite)
      → Each Joined a
      → Each Joined (threads_end paho sqlite ps a)
  unfolding threads_end
  threads_end-Each [] a e = e
  threads_end-Each (p ∷ ps) a e =
      threads_end-Each ps (thread_ends paho sqlite p a) (thread_ends-Each p a e)

  watch_all-Each : (a : Agent paho sqlite) → Each Joined a → Each Joined (watch_all paho sqlite a)
  unfolding watch_all
  watch_all-Each a e = record {
    heartbeat = watch-Joined a.heartbeat e.heartbeat;
    log_collector = watch-Joined a.log_collector e.log_collector;
    net_scanner =
        map_service-OfScanner Joined Joined Service.watch watch-Joined a.net_scanner e.net_scanner;
    cmd_executor = e.cmd_executor;
  }

  watchdog-Each :
      (turns : List (List Part)) (a : Agent paho sqlite)
      → Each Joined a
      → Each Joined (watchdog paho sqlite turns a)
  unfolding watchdog
  watchdog-Each [] a e = e
  watchdog-Each (ends ∷ turns) a e =
      watchdog-Each turns (watch_all paho sqlite (threads_end paho sqlite ends a))
        (watch_all-Each (threads_end paho sqlite ends a) (threads_end-Each ends a e))

  stop_services-Quiet :
      (device_id : Text) (last : Last) (a : Agent paho sqlite)
      → Each Joined a
      → Each Quiet (stop_services paho sqlite device_id last a)
  unfolding stop_services publishes
  stop_services-Quiet device_id last a e = record {
    heartbeat = stop-Quiet a.heartbeat e.heartbeat;
    log_collector = stop-Quiet a.log_collector e.log_collector;
    net_scanner =
        map_service-OfScanner Joined Quiet Service.stop stop-Quiet a.net_scanner e.net_scanner;
    cmd_executor = stop-Quiet a.cmd_executor e.cmd_executor;
  }

  -- From the start of the services, whichever threads end by themselves between the turns of the watchdog,
  -- no start of a service, by the watchdog or before, ends the process by replacing a thread that can be
  -- joined; and when the services have been stopped, none is running and every thread was joined.
  pub run-Quiet :
      (device_id : Text) (scans : Bool) (plugins : List LoadedPlugin) (mqtt : Client paho)
      (db : sqlite.Db) (turns : List (List Part)) (last : Last)
      → let a =
          watchdog paho sqlite turns (start_services paho sqlite device_id scans plugins mqtt db) in
        Each Joined a × Each Quiet (stop_services paho sqlite device_id last a)
  run-Quiet device_id scans plugins mqtt db turns last =
      let a = start_services paho sqlite device_id scans plugins mqtt db in
      let e = watchdog-Each turns a (start_services-Joined device_id scans plugins mqtt db) in
      (e, stop_services-Quiet device_id last (watchdog paho sqlite turns a) e)
