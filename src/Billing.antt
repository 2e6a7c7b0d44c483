-- ===== src/Billing.antt =====
-- internal/billing: what a Stripe subscription means here.
pub mod Plan
pub mod Composition
