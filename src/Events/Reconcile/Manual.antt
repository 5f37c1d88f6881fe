-- ===== src/Events/Reconcile/Manual.antt =====
-- What one run may write to an event that an operator linked to its venue by hand.
use cs_server.Prelude.{
  ℕ, String, ◌≡◌, refl, sym, ap, subst, inl, inr, true, Option, none, some, List, [], ◌∷◌,
  Bool-cases,
}
use cs_server.Events.Row.{Row, Value, get, is_null, put, text, empty}
use cs_server.Events.Identity.{TextTables}
use cs_server.Events.Posts.{
  Write, insert, update, run, Caller, event_id_of, is_confirmed, is_manual, is_protected,
  hook_write, is_text,
}
use cs_server.Events.Reconcile.{
  confirmed_write, existing_writes, new_writes, retire, reconcile_post_events, refreshed_fields,
  base_fields,
}
use cs_server.Events.Reconcile.Writes.{All, In, Among-self, reconcile_post_events-All}
use cs_server.Events.Reconcile.Confirmed.{absent_mark-Keeps}
use cs_server.Events.Reconcile.Frozen.{Keeps, confirmed_write-Keeps}

-- No column of the link to a venue.
pub record NoLink (fields : Row) : Type 0 where
  pub venue : fields "venue_id" ≡ none
  pub resolution : fields "location_resolution" ≡ none
  pub confidence : fields "location_confidence" ≡ none
  pub linked_by : fields "linked_by" ≡ none
  pub linked_at : fields "linked_at" ≡ none

-- The rows of one event agree on how its venue was found.
abbrev pub SameResolution : List Row → Type 0
SameResolution rows =
    (r s : Row)
    → In r rows
    → In s rows
    → event_id_of r ≡ event_id_of s
    → get r "location_resolution" ≡ get s "location_resolution"

abbrev pub KeepsManual : {Hook : Type 0} → List Row → Write Hook → Type 0
KeepsManual rows (insert f) = Unit
KeepsManual rows (run h) = Unit
KeepsManual rows (update id f) =
    (r : Row) → In r rows → event_id_of r ≡ id → is_manual r ≡ true → NoLink f

All-In : (P : Row → Type 0) (xs : List Row) (x : Row) → All P xs → In x xs → P x
All-In P [] x h k = absurd k
All-In P (y ∷ ys) x h (inl e) = subst P (sym e) h.0
All-In P (y ∷ ys) x h (inr k) = All-In P ys x h.1 k

Keeps-NoLink : (row fields : Row) → Keeps row fields → NoLink fields
Keeps-NoLink row fields k = record {
  venue = k.venue;
  resolution = k.resolution;
  confidence = k.confidence;
  linked_by = k.linked_by;
  linked_at = k.linked_at;
}

-- A column that neither row has is not in the merged row.
merge_absent :
    (o o' : Option Value) → o ≡ none → o' ≡ none → (elim o' [ none ↦ o | some v ↦ some v ]) ≡ none
merge_absent o none h k = h
merge_absent o (some v) h k = cc

module _ {Hook : Type 0} (u : TextTables) (c : Caller Hook) where
  refreshed_fields-NoLink :
      (e p : Row) (index : ℕ) (key : String)
      → is_manual e ≡ true
      → NoLink p
      → NoLink (refreshed_fields u c e p index key).0
  unfolding refreshed_fields base_fields
  refreshed_fields-NoLink e p index key m n = rw m (record {
    venue = merge_absent none _ refl n.venue;
    resolution = merge_absent none _ refl n.resolution;
    confidence = merge_absent none _ refl n.confidence;
    linked_by = merge_absent none _ refl n.linked_by;
    linked_at = merge_absent none _ refl n.linked_at;
  })

  hook_write-KeepsManual :
      (rows : List Row) (hook : Option Hook) → All (KeepsManual rows) (hook_write hook)
  hook_write-KeepsManual rows none = tt
  hook_write-KeepsManual rows (some h) = (tt, tt)

  manual_together :
      (rows : List Row)
      → SameResolution rows
      → (e r : Row) → In e rows
      → In r rows
      → event_id_of r ≡ event_id_of e
      → is_manual r ≡ true
      → is_manual e ≡ true
  manual_together rows h e r he hr same k = rw (← ap (is_text "manual") (h r e hr he same)) k

  existing_writes-KeepsManual :
      (rows : List Row)
      → SameResolution rows
      → (e p : Row) (index : ℕ) (key : String) → In e rows
      → NoLink p
      → All (KeepsManual rows) (existing_writes u c e p index key)
  unfolding existing_writes
  existing_writes-KeepsManual rows h e p index key he n = elim (Bool-cases (is_confirmed e)) [
    | inl yes_confirmed ↦ rw yes_confirmed (
      λ r hr same k.
          Keeps-NoLink e (confirmed_write u c e p key) (confirmed_write-Keeps u c e p key),
      tt,
    )
    | inr not_confirmed ↦ rw not_confirmed (
      λ r hr same k.
          refreshed_fields-NoLink e p index key (manual_together rows h e r he hr same k) n,
      hook_write-KeepsManual rows (refreshed_fields u c e p index key).1,
    )
  ]

  new_writes-KeepsManual :
      (rows : List Row) (p : Row) (index : ℕ) (key id : String)
      → All (KeepsManual rows) (new_writes u c p index key id)
  unfolding new_writes
  new_writes-KeepsManual rows p index key id = (tt, hook_write-KeepsManual rows _)

  superseded_alone : (f : Row) → f ≡ put "status" (text "superseded") empty → NoLink f
  superseded_alone f e = rw e (record {
    venue = refl;
    resolution = refl;
    confidence = refl;
    linked_by = refl;
    linked_at = refl;
  })

  retire-KeepsManual : (rows : List Row) (r : Row) → All (KeepsManual rows) (retire u c r)
  retire-KeepsManual rows r = elim (Bool-cases (is_null (get r "source_event_key"))) [
    | inl unkeyed ↦ rw unkeyed tt
    | inr keyed ↦ rw keyed (elim (Bool-cases (is_protected r)) [
      | inl held ↦ rw held (λ s hs same k. Keeps-NoLink r _ (absent_mark-Keeps u c r r), tt)
      | inr free ↦ rw free (λ s hs same k. superseded_alone _ refl, tt)
    ])
  ]

-- Where the rows of one event agree on how its venue was found, and the fresh events bring no column of
-- the link to a venue, no update of a manually linked event in one run writes such a column: whatever
-- the attribution answers, and whether the event is confirmed, superseded or extracted again.
pub reconcile_post_events-KeepsManual :
    {Hook : Type 0} (u : TextTables) (c : Caller Hook) (rows prepared : List Row)
    → SameResolution rows
    → All NoLink prepared
    → All (KeepsManual rows) (reconcile_post_events u c rows prepared).writes
reconcile_post_events-KeepsManual u c rows prepared h n =
    reconcile_post_events-All u c rows prepared (KeepsManual rows)
      (λ e p index key he hp.
        existing_writes-KeepsManual u c rows h e p index key he (All-In NoLink prepared p n hp))
      (λ p index key id hp. new_writes-KeepsManual u c rows p index key id)
      (λ r hr. retire-KeepsManual u c rows r) (Among-self rows) (Among-self prepared)
