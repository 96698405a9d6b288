-- ===== src/Events.antt =====
-- Events (internal/events).
pub mod Repository
pub mod Compose
pub mod Create
pub mod Update
pub mod Delete
pub mod History
pub mod Samples
mod Tests
