-- ===== src/Budget/Steps.antt =====
-- Any sequence of the service's operations, on any months: no counter is ever left negative.
use cs_server.Prelude.{String, Option, arith, eq_iff}
use cs_server.Prelude.Int.{pos, ◌≤ℤ◌, ◌+ℤ◌, ◌-ℤ◌}
use cs_server.Budget.Redis.{Redis, Keys, cell_value, documented}
use cs_server.Budget.Redis.Simulation.{IsRedis, keys_after}
use cs_server.Budget.Service.{
  reserve_manual_slot, release_manual_slot, record_new_venue_from_discovery, release_discovery_slot,
  try_register_touch, mark_touched, month_or,
}
use cs_server.Budget.Refinement.{RefinesKeys, service-RefinesKeys}

-- One operation of the service; each has the months and the venue that it is called with.
pub data Step {S : Type 0} (redis : Redis S) : S → S → Type 0 where
  reserve : (s : S) (ym : String) → Step redis s (reserve_manual_slot redis ym s).1
  release :
      (s : S) (now : String) (ym : Option String)
      → Step redis s (release_manual_slot redis now ym s).1
  discover : (s : S) (ym : String) → Step redis s (record_new_venue_from_discovery redis ym s).1
  undo :
      (s : S) (now : String) (ym : Option String)
      → Step redis s (release_discovery_slot redis now ym s).1
  gate : (s : S) (ym v : String) → Step redis s (try_register_touch redis ym v s).1
  mark : (s : S) (ym v : String) → Step redis s (mark_touched redis ym v s).1

pub data Reach {S : Type 0} (redis : Redis S) (s : S) : S → Type 0 where
  here : Reach redis s s
  next : {t u : S} → Reach redis s t → Step redis t u → Reach redis s u

-- No month's counter is below zero.
pub record IsNonneg (s : Keys) : Type 0 where
  pub at_month : (j : String) → pos 0 ≤ℤ cell_value (s.counters j)

keys-IsNonneg : {s t : Keys} → Step documented s t → IsNonneg s → IsNonneg t
unfolding reserve_manual_slot release_manual_slot record_new_venue_from_discovery
    release_discovery_slot try_register_touch mark_touched ◌+ℤ◌ ◌-ℤ◌
keys-IsNonneg (reserve s ym) h = record {
  at_month = λ j. ground (arith, h.at_month j, eq_iff ym j);
}
keys-IsNonneg (release s now ym) h = record {
  at_month = λ j. ground (arith, h.at_month j, eq_iff (month_or ym now) j);
}
keys-IsNonneg (discover s ym) h = record {
  at_month = λ j. ground (arith, h.at_month j, eq_iff ym j);
}
keys-IsNonneg (undo s now ym) h = record {
  at_month = λ j. ground (arith, h.at_month j, eq_iff (month_or ym now) j);
}
keys-IsNonneg (gate s ym v) h = record { at_month = λ j. ground (arith, h.at_month j) }
keys-IsNonneg (mark s ym v) h = record { at_month = λ j. ground (arith, h.at_month j) }

module _ {S : Type 0} (redis : Redis S) (view : S → Keys) (law : IsRedis redis view) where
  all : RefinesKeys redis view
  all = service-RefinesKeys redis view law

  -- A step of the client is a step on the keys.
  step_keys : {s t : S} → Step redis s t → Step documented (view s) (view t)
  step_keys (reserve s ym) = rw (keys_after view _ _ (all.reserve ym) s) (reserve (view s) ym)
  step_keys (release s now ym) =
      rw (keys_after view _ _ (all.release now ym) s) (release (view s) now ym)
  step_keys (discover s ym) = rw (keys_after view _ _ (all.discover ym) s) (discover (view s) ym)
  step_keys (undo s now ym) = rw (keys_after view _ _ (all.undo now ym) s) (undo (view s) now ym)
  step_keys (gate s ym v) = rw (keys_after view _ _ (all.touch ym v) s) (gate (view s) ym v)
  step_keys (mark s ym v) = rw (keys_after view _ _ (all.mark ym v) s) (mark (view s) ym v)

  -- On a client that behaves as Redis documents, from counters that are not negative, whatever
  -- operations are run, in whatever order and on whatever months, releases without a reservation
  -- included, no counter is ever left negative.
  pub Reach-IsNonneg : {s t : S} → IsNonneg (view s) → Reach redis s t → IsNonneg (view t)
  Reach-IsNonneg h here = h
  Reach-IsNonneg h (next r st) = keys-IsNonneg (step_keys st) (Reach-IsNonneg h r)
