-- ===== src/Inventory/Ledger.antt =====
-- The stock level of every variant and location is the sum of its movements, on every path of the
-- three handlers.
pub mod Sums
pub mod Deltas
pub mod Edits
pub mod Requests
pub mod Calls
