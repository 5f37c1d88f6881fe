-- ===== src/Events/Reconcile/Count.antt =====
-- How many events one run persists.
use cs_server.Prelude.{
  ℕ, suc, ◌+◌, String, ◌≡◌, ◌∙◌, refl, List, [], ◌∷◌, arith, length, length-append, elem,
  if◌then◌else◌,
}
use cs_server.Events.Row.{Row}
use cs_server.Events.Identity.{TextTables}
use cs_server.Events.Posts.{Caller, Run, Pending, key_of, orphaned_protected, begin, Matching}
use cs_server.Events.Reconcile.{
  match_all, persist_existing, persist_new, pair_up, persist_pending, paired, match_step,
  reconcile_post_events,
}

-- The number of different keys among the fresh events, those in `seen` left out.
pub new_keys : TextTables → List String → List Row → ℕ
new_keys u seen [] = 0
new_keys u seen (p ∷ ps) =
    let rest = new_keys u (if elem (key_of u p) seen then seen else key_of u p ∷ seen) ps in
    if elem (key_of u p) seen then rest else suc rest

module _ {Hook : Type 0} (u : TextTables) (c : Caller Hook) where
  match_step-total :
      (rows : List Row) (index : ℕ) (p : Row) (ps : List Row) (m : Matching Hook)
      → let n = match_step u c rows index p m in
        n.current.persisted + length n.pending + new_keys u n.seen ps
        ≡ m.current.persisted + length m.pending + new_keys u m.seen (p ∷ ps)
  unfolding match_step persist_existing new_keys
  match_step-total rows index p ps m =
      ground (arith, length-append m.pending ((index, p, key_of u p) ∷ []))

  match_all-total :
      (rows : List Row) (index : ℕ) (ps : List Row) (m : Matching Hook)
      → let n = match_all u c rows index ps m in
        n.current.persisted + length n.pending
        ≡ m.current.persisted + length m.pending + new_keys u m.seen ps
  unfolding match_all new_keys
  match_all-total rows index [] m = omega arith
  match_all-total rows index (p ∷ ps) m =
      match_all-total rows (index + 1) ps (match_step u c rows index p m)
      ∙ match_step-total rows index p ps m

  persist_pending-persisted :
      (ps : List Pending) (r : Run Hook)
      → (persist_pending u c ps r).persisted ≡ r.persisted + length ps
  unfolding persist_pending persist_new
  persist_pending-persisted [] r = omega arith
  persist_pending-persisted ((index, p, key) ∷ ps) r =
      omega (arith, persist_pending-persisted ps (persist_new u c p index key r))

  pair_up-total :
      (orphans : List Row) (pending : List Pending) (r : Run Hook)
      → let q = pair_up u c orphans pending r in
        q.0.persisted + length q.1 ≡ r.persisted + length pending
  unfolding persist_existing
  pair_up-total [] pending r = refl
  pair_up-total (o ∷ []) [] r = refl
  pair_up-total (o ∷ []) (p ∷ []) r = ground arith
  pair_up-total (o ∷ []) (p ∷ q ∷ ps) r = refl
  pair_up-total (o ∷ o' ∷ os) pending r = refl

-- One run persists exactly one event for each different key among the fresh events: a second event with
-- the key of an earlier one is skipped, and no other is lost, whatever rows the post had.
pub reconcile_post_events-persisted :
    {Hook : Type 0} (u : TextTables) (c : Caller Hook) (rows prepared : List Row)
    → (reconcile_post_events u c rows prepared).persisted ≡ new_keys u [] prepared
unfolding reconcile_post_events
reconcile_post_events-persisted u c rows prepared =
    let m = match_all u c rows 1 prepared begin in
    let q = paired u c rows m in
    omega (
      arith,
      match_all-total u c rows 1 prepared begin,
      pair_up-total u c (orphaned_protected m.current.handled rows) m.pending m.current,
      persist_pending-persisted u c q.1 q.0,
    )
