-- ===== src/Events/Reconcile/Keys.antt =====
-- Which events one run persists: one write for each key.
use cs_server.Prelude.{ℕ, ◌+◌, String}
use cs_server.Events.Row.{Row}
use cs_server.Events.Identity.{TextTables}
use cs_server.Events.Posts.{Caller, Matching}
use cs_server.Events.Reconcile.Counted.{count_key, waiting, NoKey}

module _ {Hook : Type 0} (u : TextTables) (c : Caller Hook) (k : String)
    (no_key : (f : Row) (id : String) → NoKey (c.attribute f id).0) where
  -- The writes that carry the key so far, and the events that wait with it.
  abbrev reached : Matching Hook → ℕ
  reached m = count_key k m.current.writes + waiting k m.pending
