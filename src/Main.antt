-- ===== src/Main.antt =====
-- src/main.cpp: the first configuration, onboarding, the delivery of messages and the command line.
pub mod FirstConfig
pub mod Onboarding
pub mod Delivery
pub mod Run
pub mod Host
pub mod Cli
pub mod Tests
