-- ===== src/Examples.antt =====
-- Concrete inputs: a number type for the decimals, and runs of each part of the program.
pub mod Numbers
pub mod Stock
pub mod Agenda
pub mod Requests
pub mod Plans
pub mod Queries
pub mod Admissions
pub mod Changes
pub mod Arrivals
pub mod Setup
