-- ===== src/Q.antt =====
-- The service in q/.
pub mod Model
pub mod Db
pub mod Security
pub mod Metrics
pub mod Config
pub mod Delivery
pub mod Api
pub mod Samples
