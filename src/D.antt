-- ===== src/D.antt =====
-- The service in d/.
pub mod Model
pub mod Rows
pub mod Db
pub mod Security
pub mod Config
pub mod Worker
pub mod Api
pub mod System
pub mod Samples
mod Tests
