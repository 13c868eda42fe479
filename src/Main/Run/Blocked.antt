-- ===== src/Main/Run/Blocked.antt =====
-- src/main.cpp with the sink of the log that it attaches, when the client is not connected.
use orbis_agent_desktop.LogCollector.Wiring as Wiring
use orbis_agent_desktop.Mqtt as Mqtt
