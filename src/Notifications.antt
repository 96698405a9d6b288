-- ===== src/Notifications.antt =====
-- The delivery of notifications (internal/notifications): the queue and its worker.
pub mod Payload
pub mod Queue
pub mod Worker
pub mod Codes
mod Tests
