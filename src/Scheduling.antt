-- ===== src/Scheduling.antt =====
-- internal/scheduling/schedule.go: opening hours and the slots that they offer on a date.
pub mod Calendar
pub mod Clock
pub mod Validity
pub mod Slots
pub mod Placing
pub mod Offering
pub mod Offers
pub mod Range
