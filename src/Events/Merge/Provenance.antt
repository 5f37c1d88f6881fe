-- ===== src/Events/Merge/Provenance.antt =====
-- No announcing post is lost by a merge.
use cs_server.Prelude.{
  String, ◌≡◌, refl, sym, ap, ◌∙◌, inl, inr, Bool, true, false, Bool-cases, Option, none, some,
  Option-cases, List, [], ◌∷◌, str_eq, elem, if◌then◌else◌,
}
use cs_server.Python.Except.{Result, Exec, ok, pure, ◌>>=◌}
use cs_server.Events.Row.{Row, get}
use cs_server.Events.Identity.{TextTables}
use cs_server.Events.Posts.{event_id_of}
use cs_server.Events.Merge.{choose_canonical}
use cs_server.Events.Merge.There.{
  viewed-Every, exists-viewed, Every, Every-self, list_events-Every, siblings_of-Every,
  choose_canonical-There, find_event-There,
}
use cs_server.Events.Merge.Store.{
  viewed, has_identity, identity_of, list_events, siblings_of, Store, find_event, get_event,
  update_rows, update_event, reattach_event_sources, clear_candidates, delete_event, update_of,
  needs_update, fold_fields_into, absorb_one, absorb_all, merge_group, merge_siblings, merge_found,
  merge_one, merge_touched, merge_touched_events,
}
use cs_server.Events.Merge.Linked.{
  exists, all_linked, ids_of, exists-update_rows, exists-find_event, exists-drop_rows,
  refers-reattach, elem-without, ids_of-reattach, all_linked-reattach, all_linked-same,
}

-- Every source is still there, and refers to an event that is there if it did before.
pub record Keeps (s t : Store) : Type 0 where
  pub sources : ids_of t.sources ≡ ids_of s.sources
  pub linked : all_linked s.sources s.events ≡ true → all_linked t.sources t.events ≡ true

Keeps-refl : (s : Store) → Keeps s s
Keeps-refl s = record { sources = refl; linked = λ h. h }

Keeps-trans : (s t r : Store) → Keeps s t → Keeps t r → Keeps s r
Keeps-trans s t r h g = record {
  sources = g.sources ∙ h.sources;
  linked = λ l. g.linked (h.linked l);
}

-- The action returns, and what it returns and leaves satisfies the condition.
record Returns {A : Type 0} (Q : A → Store → Type 0) (p : Result A × Store) : Type 0 where
  pub value : A
  pub after : Store
  pub run : p ≡ (ok value, after)
  pub holds : Q value after

return : {A : Type 0} {Q : A → Store → Type 0} (a : A) (t : Store) → Q a t → Returns Q (ok a, t)
return a t h = record { value = a; after = t; run = refl; holds = h }

>>=-Returns :
    {A B : Type 0} {P : A → Store → Type 0} {Q : B → Store → Type 0} (m : Exec Store A)
    (k : A → Exec Store B) (s : Store)
    → Returns P (m s)
    → ((a : A) (t : Store) → P a t → Returns Q (k a t))
    → Returns Q ((m >>= k) s)
>>=-Returns m k s h g = rw h.run (g h.value h.after h.holds)

abbrev IsThere : String → Store → Option Row → Store → Type 0
IsThere id s next t =
    (r : Row) × ((next ≡ some r)
      × ((t.sources ≡ s.sources) × ((j : String) → exists j t.events ≡ exists j s.events)))

Keeps-Returns :
    {A : Type 0} (s t : Store) (p : Result A × Store)
    → Keeps s t
    → Returns (λ a r. Keeps t r) p
    → Returns (λ a r. Keeps s r) p
Keeps-Returns s t p h g = record {
  value = g.value;
  after = g.after;
  run = g.run;
  holds = Keeps-trans s t g.after h g.holds;
}

branch-Returns :
    {A : Type 0} {Q : A → Store → Type 0} (b : Bool) (m n : Exec Store A) (s : Store)
    → Returns Q (m s)
    → Returns Q (n s)
    → Returns Q ((if b then m else n) s)
branch-Returns true m n s h g = h
branch-Returns false m n s h g = g

module _ (u : TextTables) where
  fold_fields_into-Returns :
      (id : String) (canonical other : Row) (s : Store)
      → exists id s.events ≡ true
      → Returns (IsThere id s) (fold_fields_into u id canonical other s)
  unfolding fold_fields_into update_event get_event
  fold_fields_into-Returns id canonical other s h =
      let rows = update_rows id (update_of u canonical other) s.events in
      let stays : (j : String) → exists j rows ≡ exists j s.events =
        λ j. exists-update_rows j id (update_of u canonical other) s.events in
      let seen = viewed s.sources rows in
      let (r, found) = exists-find_event id seen (exists-viewed id s.sources rows ∙ stays id ∙ h) in
      branch-Returns (needs_update u canonical other)
        (update_event id (update_of u canonical other) >>= λ _. get_event id)
        (pure (some canonical)) s
        (return (find_event id seen) (record s { events = rows }) (r, (found, (refl, stays))))
        (return (some canonical) s (canonical, (refl, (refl, λ j. refl))))

  absorb_one-Returns :
      (id : String) (canonical other : Row) (s : Store)
      → exists id s.events ≡ true
      → str_eq (event_id_of other) id ≡ false
      → Returns
          (λ next t. ((r : Row) × (next ≡ some r)) × (Keeps s t × (exists id t.events ≡ true)))
          (absorb_one u id (some canonical) other s)
  unfolding absorb_one reattach_event_sources clear_candidates delete_event
  absorb_one-Returns id canonical other s h d =
      let o = event_id_of other in
      >>=-Returns (fold_fields_into u id canonical other) _ s
        (fold_fields_into-Returns id canonical other s h)
        λ next t ends.
          let (r, (e, (same, stays))) = ends in
          let here : exists id t.events ≡ true = stays id ∙ h in
          rw (refers-reattach o id t.sources d, elem-without o t.candidates)
            (return next _ (
              (r, e),
              (
                record {
                  sources = ids_of-reattach o id t.sources ∙ ap ids_of same;
                  linked = λ l.
                      all_linked-reattach o id t.sources t.events d here
                        (rw same (all_linked-same s.sources s.events t.events stays ∙ l));
                },
                exists-drop_rows id o t.events d ∙ here,
              ),
            ))

  -- The loop over a group, from a canonical row that is there.
  absorb_all-Returns :
      (id : String) (canonical : Option Row) (others : List Row) (absorbed : List String)
      (s : Store)
      → (r : Row) × (canonical ≡ some r)
      → exists id s.events ≡ true
      → Returns (λ a t. Keeps s t) (absorb_all u id canonical others absorbed s)
  unfolding absorb_all
  absorb_all-Returns id canonical [] absorbed s c h = return absorbed s (Keeps-refl s)
  absorb_all-Returns id canonical (x ∷ xs) absorbed s (r, e) h =
      elim (Bool-cases (str_eq (event_id_of x) id)) [
        | inl b ↦ rw b (absorb_all-Returns id canonical xs absorbed s (r, e) h)
        | inr b ↦
            rw (b, e)
              (>>=-Returns (absorb_one u id (some r) x) _ s (absorb_one-Returns id r x s h b)
                λ next t k.
                  Keeps-Returns s t _ k.1.0
                    (absorb_all-Returns id next xs (event_id_of x ∷ absorbed) t k.0 k.1.1))
      ]

  merge_group-Returns :
      (event : Row) (siblings : List Row) (absorbed : List String) (s : Store)
      → exists (event_id_of event) s.events ≡ true
      → Every s.events siblings
      → Returns (λ a t. Keeps s t) (merge_group u event siblings absorbed s)
  merge_group-Returns event siblings absorbed s h g =
      elim (Option-cases (choose_canonical event siblings)) [
        | inl e ↦ rw (merge_group, e) (return absorbed s (Keeps-refl s))
        | inr (c, e) ↦
            let there = choose_canonical-There s.events event siblings c e h g in
            rw (merge_group, e)
              (>>=-Returns (absorb_all u (event_id_of c) (some c) (event ∷ siblings) absorbed) _ s
                (absorb_all-Returns (event_id_of c) (some c) (event ∷ siblings) absorbed s (c, refl)
                  there)
                λ more t k. return (event_id_of c ∷ more) t k)
      ]

  merge_siblings-Returns :
      (event : Row) (siblings : List Row) (absorbed : List String) (s : Store)
      → exists (event_id_of event) s.events ≡ true
      → Every s.events siblings
      → Returns (λ a t. Keeps s t) (merge_siblings u event siblings absorbed s)
  merge_siblings-Returns event [] absorbed s h g = return absorbed s (Keeps-refl s)
  merge_siblings-Returns event (x ∷ xs) absorbed s h g =
      merge_group-Returns event (x ∷ xs) absorbed s h g

  merge_found-Returns :
      (o : Option Row) (absorbed : List String) (s : Store)
      → ((r : Row) → o ≡ some r → exists (event_id_of r) s.events ≡ true)
      → Returns (λ a t. Keeps s t) (merge_found u o absorbed s)
  merge_found-Returns none absorbed s h = return absorbed s (Keeps-refl s)
  merge_found-Returns (some event) absorbed s h =
      let seen = viewed s.sources s.events in
      let listed = list_events (get event "venue_id") seen in
      branch-Returns (has_identity u (identity_of u event))
        (merge_siblings u event (siblings_of u event absorbed listed) absorbed) (pure absorbed) s
        (merge_siblings-Returns event (siblings_of u event absorbed listed) absorbed s
          (h event refl)
          (siblings_of-Every u s.events event absorbed listed (
            list_events-Every s.events (get event "venue_id") seen
              (viewed-Every s.sources s.events s.events (Every-self s.events)))))
        (return absorbed s (Keeps-refl s))

  merge_one-Returns :
      (id : String) (absorbed : List String) (s : Store)
      → Returns (λ a t. Keeps s t) (merge_one u id absorbed s)
  unfolding merge_one get_event
  merge_one-Returns id absorbed s =
      let seen = viewed s.sources s.events in
      merge_found-Returns (find_event id seen) absorbed s
        λ r e. sym (exists-viewed (event_id_of r) s.sources s.events) ∙ find_event-There id seen r e

  merge_touched-Returns :
      (ids absorbed : List String) (s : Store)
      → Returns (λ a t. Keeps s t) (merge_touched u ids absorbed s)
  unfolding merge_touched
  merge_touched-Returns [] absorbed s = return absorbed s (Keeps-refl s)
  merge_touched-Returns (id ∷ ids) absorbed s =
      branch-Returns (elem id absorbed) (merge_touched u ids absorbed)
        (merge_one u id absorbed >>= merge_touched u ids) s (merge_touched-Returns ids absorbed s)
        (>>=-Returns (merge_one u id absorbed) (merge_touched u ids) s
          (merge_one-Returns id absorbed s)
          λ more t k. Keeps-Returns s t _ k (merge_touched-Returns ids more t))

  -- Whatever events a post touched and whatever the tables hold, a merge returns: no deletion fails on
  -- a source or a candidate that still refers to the row, and no canonical row is missing. No source
  -- is lost, and where each source referred to an event that is there, it does so afterwards.
  pub merge_touched_events-Keeps :
      (ids : List String) (s : Store)
      → ((merge_touched_events u ids s).0 ≡ ok tt) × Keeps s (merge_touched_events u ids s).1
  unfolding merge_touched_events
  merge_touched_events-Keeps ids s =
      let r = merge_touched-Returns ids [] s in rw r.run (refl, r.holds)
