-- ===== src/Instagram.antt =====
-- The discovery of a venue's Instagram handle: app/services/instagram_handle_sources.py,
-- app/services/instagram_judge.py and app/services/instagram_cascade_service.py.
pub mod Handles
pub mod Similarity
pub mod Judge
pub mod Data
pub mod Candidates
pub mod Scoring
pub mod Cascade
pub mod Run
mod Samples
mod Tests
