-- ===== src/Entitlements.antt =====
-- internal/entitlements/service.go: what a subscription allows, and the count of its confirmations.
pub mod Access
pub mod Quota
