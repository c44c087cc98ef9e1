-- ===== src/System.antt =====
-- The services together: every sequence of their steps on one database, with the matcher's process.
pub mod Consistent
pub mod Steps
pub mod Preserved
pub mod Settled
pub mod Runs
