-- ===== src/Budget.antt =====
-- The monthly budget of new venues: app/services/venue_budget_service.py over the Redis keys of
-- app/dao/venue_budget_dao.py. The proofs are in the modules below.
pub mod Redis
pub mod Dao
pub mod Service
pub mod Refinement
pub mod Settings
pub mod Counter
pub mod Ledger
pub mod Steps
mod Tests
