-- ===== src/Costs.antt =====
-- services/api/honor_api/costs.py: decimals, the cost governor, and the cost ledger.
pub mod Decimal
pub mod Governor
pub mod Ledger
