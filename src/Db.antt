-- ===== src/Db.antt =====
-- The database layer: error classes, sessions, prepared statements and the connection pool.
pub mod Errors
pub mod Session
pub mod Pool
pub mod Lending
pub mod ConnectionString
pub mod RoundTrip
pub mod Statements
pub mod Handles
mod Tests
