-- ===== src/Tests.antt =====
-- The theorems at concrete inputs, by the part of the frontend that they are about.
pub mod Requests
pub mod Amounts
pub mod Periods
pub mod Listings
pub mod Sessions
pub mod Plans
pub mod Forms
pub mod Entries
pub mod Outcomes
