-- ===== src/Eligibility.antt =====
-- Which venues are served: app/services/venue_eligibility.py and app/models/venue_category.py.
pub mod Categories
pub mod Defaults
pub mod Capitals
pub mod Fence
pub mod Category
pub mod CategoryMap
pub mod Evaluate
pub mod Rules
pub mod Policy
pub mod Correction
mod Tests
