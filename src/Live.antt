-- ===== src/Live.antt =====
-- The live refresh interval that an administrator sets: app/services/refresh_interval_watch.py, which
-- applies it to the scheduler, and app/services/live_freshness.py, which derives from it how old a
-- live value may be.
pub mod Watch
pub mod Freshness
pub mod Agreement
mod Tests
