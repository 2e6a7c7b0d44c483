-- ===== src/Inventory.antt =====
-- internal/inventory: stock movements, the levels that they sum up to, and the queries behind them.
pub mod Rows
pub mod Service
pub mod Queries
pub mod Handler
pub mod Ledger
pub mod Tenancy
pub mod Replay
pub mod Repeats
pub mod Stocked
pub mod Calls
