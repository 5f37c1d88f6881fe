-- ===== src/Dates.antt =====
-- The date of an event, out of the words of a flyer: app/services/event_date_resolver.py. The proofs
-- are in the modules below.
pub mod Patterns
pub mod Resolve
pub mod Event
pub mod Weekday
pub mod Explicit
pub mod Sound
pub mod Times
pub mod Ends
pub mod Outcome
pub mod Recurring
pub mod Errors
mod Tests
