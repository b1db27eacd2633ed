-- ===== src/G.antt =====
-- The service in g/.
pub mod Model
pub mod Config
pub mod Security
pub mod Db
pub mod Deliver
pub mod Worker
pub mod Token
pub mod Routes
pub mod Service
mod Tests
