-- ===== src/Config.antt =====
-- The configuration of the services, which is read from the environment and checked at the start.
pub mod Env
pub mod Addresses
pub mod Web
pub mod Consumer
pub mod Probe
pub mod Start
pub mod Durations
pub mod Sample
mod Tests
