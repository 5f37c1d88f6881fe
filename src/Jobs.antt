-- ===== src/Jobs.antt =====
-- The runs of the scheduled jobs: their lock, from app/services/job_lock.py, and their ids, from
-- app/services/pipeline_run_registry.py.
pub mod RunId
pub mod Lock
pub mod Registry
mod Tests
