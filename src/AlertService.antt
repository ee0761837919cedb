-- ===== src/AlertService.antt =====
-- The program alert-service: it consumes alert events from Kafka and keeps Redis up to date.
pub mod Event
pub mod Scripts
pub mod Store
pub mod Consumer
mod Tests
