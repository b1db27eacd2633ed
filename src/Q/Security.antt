-- ===== src/Q/Security.antt =====
-- q/src/security/: destinations, credentials and request rates.
pub mod Ssrf
pub mod Ratelimit
pub mod Auth
mod Tests
