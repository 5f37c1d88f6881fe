-- ===== src/Events.antt =====
-- Events extracted from Instagram posts: their identity (app/services/event_identity.py), the
-- reconciliation of one post (app/services/event_reconciliation.py) and the merge across posts
-- (app/services/event_merge.py). Rows are dictionaries with the column names as keys.
pub mod Row
pub mod Identity
pub mod Unions
pub mod Protection
pub mod Posts
pub mod Reconcile
pub mod Merge
mod Ascii
mod Tests
mod Samples
