-- ===== src/Q/Db.antt =====
-- q/src/db.rs: the two tables, the methods of `Db`, and what the methods guarantee.
pub mod Rows
pub mod Writes
pub mod Reads
pub mod Cases
pub mod Calls
pub mod Invariant
pub mod Durable
pub mod Claims
pub mod Counts
pub mod Keys
pub mod Conflicts
pub mod Due
pub mod Letters
mod Tests
