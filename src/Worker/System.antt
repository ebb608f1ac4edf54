-- ===== src/Worker/System.antt =====
-- The worker, the reconciler and the API on one database: what every interleaving of their
-- transactions keeps.
pub mod Rows
pub mod Tables
pub mod Updates
pub mod Transactions
pub mod Enqueue
pub mod History
pub mod Lifetime
pub mod Runs
