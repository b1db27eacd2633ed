-- ===== src/Q/Delivery.antt =====
-- q/src/delivery/: what follows a send, and the worker that drives deliveries.
pub mod Backoff
pub mod Classify
pub mod Worker
mod Tests
