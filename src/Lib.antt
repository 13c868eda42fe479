-- ===== src/Lib.antt =====
-- Verification of the orbis desktop agent, a C++ daemon that collects logs and metrics of a device,
-- sends them over MQTT, buffers what cannot be sent, and runs commands and updates from its server.
--
-- How the parts interact. `main.cpp` loads the configuration, connects the MQTT client and starts the
-- services. The services publish through functions over the client and, where it refuses, the local
-- buffer; the client's callback puts commands in the executor's queue, and the executor calls the
-- collector, the scanner and the update manager.
--
-- What each file models:
--   Topics        src/constants.hpp: the topic templates and `topicFor`
--   MessageQueue  src/core/MessageQueue.cpp: the bounded queue; `push`, `pop`, `size`, `shutdown`
--   LocalBuffer   src/buffer/LocalBuffer.cpp: `initDb`, `store`, `flush`, `size`, `pruneIfNeeded`;
--                 Database holds what is assumed of SQLite
--   Config        src/config/ConfigManager.cpp: `load`, the token and the registration; Base64 the
--                 codec; Token the encryption; Save `save` and `generateUUID`
--   Executor      src/services/CommandExecutor.cpp: `executeCommand`, the handlers, `publishResult`,
--                 `runShell` for POSIX; Effects the monad of their actions; Inbox `processCommand` and
--                 the callback that the constructor registers; Worker `workerLoop`; Windows the
--                 `runShell` for Windows
--   Update        src/services/UpdateManager.cpp: `update` and its steps, over a store of files
--   Plugins       src/plugins/PluginLoader.cpp: `loadAll`, `collectAll`, `unloadAll` and their helpers
--   LogCollector  src/services/LogCollector.cpp: a round of collection; System `collectFromSystem` for
--                 Linux, macOS and Windows; Wiring the functions of src/main.cpp that it publishes with
--   Mqtt          src/mqtt/MQTTClient.cpp: the wrapper of the Paho client and its reconnection;
--                 Inbound `onMessageArrived`; LogSink src/mqtt/MqttLogSink.hpp
--   Scanner       src/services/NetworkScanner.cpp: the local network, its hosts, the ports, the probes and
--                 the document; Scan a whole scan; Probe the probe of a port over the sockets;
--                 Adapters the local network for Windows
--   Heartbeat     src/services/HeartbeatService.cpp: the document and the loop of `run`; Linux, MacOs
--                 and Windows the measurements
--   Uninstall     src/main.cpp: the key that protects the agent, and `--uninstall`
--   Main          src/main.cpp: Cli the command line, FirstConfig the configuration that `--install`
--                 writes, Onboarding `doOnboarding` and the loop of its retries, Delivery the way of
--                 a message from a service to the broker, Run the start of the services, the watchdog
--                 and the stop of the services, Run/Starting the normal run, and Host the facts of the
--                 host and the sinks of the log
--   Installer     src/platform/LinuxService.cpp: the service of systemd; MacOs
--                 src/platform/MacOSService.cpp; Windows src/platform/WindowsService.cpp, with Status its
--                 report to the service manager; Copies the copies that the three make
--   SyslogPlugin  src/plugins/syslog_collector/syslog_collector.cpp, for Linux; Others for macOS and
--                 Windows
--   MetricPlugins src/plugins/cpu_ram/cpu_ram.cpp and src/plugins/disk/disk.cpp, for Linux; Others for
--                 macOS and Windows; Docker src/plugins/docker_stats/docker_stats.cpp
--   Service       `start`, `stop` and `isRunning` of the services, and the watchdog of src/main.cpp;
--                 Loop the loop of the threads of the collector and the scanner
--   Json          the JSON library, as a parameter
--   Base          Boolean tests, lists, texts, integers, decimal and hexadecimal digits, `std::stoi`,
--                 and a store of files
--
-- State is passed explicitly: an operation takes the component's record and returns the next one, with
-- the calls that it makes on others as a list or on a world that the caller chooses. A text is the list
-- of its bytes. An exception is a value of a result type. The clock, SQLite, OpenSSL, toml11, Paho,
-- nlohmann::json, libcurl, the plugins and the system are parameters, and what is assumed of them
-- is a record of named laws, of which the tests give instances.
--
-- Fuel. `LocalBuffer.flush_loop` needs more than the number of stored rows, since each turn removes one
-- at least; `LogCollector.publish_loop` the number of entries and one, since each turn passes
-- one at least; `Mqtt.reconnect_loop` more than the number of refused attempts. That this is enough is
-- part of the theorems about them. `Heartbeat.run_loop` needs more than the second of the stop, since
-- each turn sleeps one second at least, and `Service.Loop.loop` more than the turn of the stop.
--
-- Loops that wait for others are given what they meet: `Main.Onboarding.onboarding_loop` the list of the
-- attempts, each with its broker and the messages that arrive, and `Executor.Worker.run` the order in
-- which the callback, `stop` and the worker run.
--
-- Not modelled: threads beyond the atomicity that the mutexes give, where a notification that is sent is
-- received; the log, but for what a record does to a client that is not connected or that holds
-- `pub_mutex_`, in `Mqtt.publish`, `subscribe`, `disconnect` and `reconnect_loop` (`connect` is called
-- before the sink is attached): with the sink that main.cpp attaches, the record locks mutexes that its own
-- thread holds, and the field `stuck` says so, after which a state has no meaning; so neither the records
-- that the sink publishes while the services stop, nor the flush, the end of the connection and the last
-- record after that (main.cpp:712-718); the signals, of which a run is given the turn of the watchdog; the
-- calls of the system behind a measurement or a socket, of which the answers are given; permissions of
-- files; and the measurements of src/plugins/cpu_ram/cpu_ram.cpp for Windows.
pub mod Base
pub mod Topics
pub mod MessageQueue
pub mod LocalBuffer
pub mod Config
pub mod Json
pub mod Executor
pub mod Update
pub mod Plugins
pub mod LogCollector
pub mod Mqtt
pub mod Scanner
pub mod Uninstall
pub mod Service
pub mod Heartbeat
pub mod SyslogPlugin
pub mod MetricPlugins
pub mod Installer
pub mod Main
