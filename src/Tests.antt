-- ===== src/Tests.antt =====
-- The theorems at concrete inputs of the code.
pub mod Samples
mod Governor
mod Ledger
mod Store
mod Histories
mod Reconciling
mod Executing
mod Services
mod Delivering
mod Detailing
mod Serving
mod Checking
