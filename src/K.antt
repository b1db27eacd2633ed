-- ===== src/K.antt =====
-- The service in k/webhook-delivery/.
pub mod Model
pub mod Db
pub mod Security
pub mod Config
pub mod Routes
pub mod Worker
pub mod Samples
mod Tests
