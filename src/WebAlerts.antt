-- ===== src/WebAlerts.antt =====
-- The package alert of server-web: Alertmanager's webhook and the alert pages, over the interfaces
-- of its cache and of its history table.
pub mod Records
pub mod Cache
pub mod History
pub mod Webhook
pub mod Queries
pub mod Memory
mod Tests
