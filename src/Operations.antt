-- ===== src/Operations.antt =====
-- internal/operations, internal/appointments and internal/preorders: the requests of customers.
pub mod States
pub mod Lifecycle
pub mod Rows
pub mod Tables
pub mod Expire
pub mod Expiry
pub mod Redelivery
pub mod History
pub mod Intake
pub mod Admission
pub mod Customer
pub mod Contacts
pub mod Booking
pub mod Changes
pub mod Basket
pub mod Arrivals
pub mod Rules
pub mod Steps
pub mod Checks
pub mod Mutate
pub mod Configuration
pub mod Seats
pub mod Create
pub mod Created
pub mod Creations
pub mod Newcomers
pub mod Openings
pub mod Refusals
pub mod Prices
pub mod Overlaps
pub mod Mutated
pub mod Changed
pub mod Expirations
pub mod Lives
pub mod Settled
pub mod Machine
pub mod Readings
pub mod DoubleBooking
pub mod Refinement
pub mod Histories
pub mod Guards
pub mod Landed
pub mod Journal
pub mod Again
