-- ===== src/Events/Reconcile/Confirmed.antt =====
-- What one run may write to an event that an operator confirmed or linked by hand.
use cs_server.Prelude.{
  ℕ, String, ◌≡◌, refl, ap, inl, inr, Bool, true, false, ◌||◌, Option, none, some, List, arith,
  Bool-cases,
}
use cs_server.Events.Row.{Row, get, is_null}
use cs_server.Events.Identity.{TextTables}
use cs_server.Events.Posts.{
  Write, insert, update, run, Caller, event_id_of, is_confirmed, is_protected, hook_write, is_text,
}
use cs_server.Events.Reconcile.{
  confirmed_write, existing_writes, new_writes, retire, absent_mark, reconcile_post_events,
  refreshed_fields,
}
use cs_server.Events.Reconcile.Writes.{All, In, Among-self, reconcile_post_events-All}
use cs_server.Events.Reconcile.Frozen.{
  content-bookkeeping, true_and_false, Keeps, confirmed_write-Keeps,
}

-- The rows of one event agree on the event's own columns, as the rows of a join do.
pub record Coherent (rows : List Row) : Type 0 where
  pub same_status :
      (r s : Row)
      → In r rows
      → In s rows
      → event_id_of r ≡ event_id_of s
      → get r "status" ≡ get s "status"
  pub same_edits :
      (r s : Row)
      → In r rows
      → In s rows
      → event_id_of r ≡ event_id_of s
      → get r "operator_edited_fields" ≡ get s "operator_edited_fields"

neither_true : (a b : Bool) → a ≡ true → (a || b) ≡ false → ⊥
neither_true a b h z = ground arith

abbrev pub KeepsConfirmed : {Hook : Type 0} → List Row → Write Hook → Type 0
KeepsConfirmed rows (insert f) = Unit
KeepsConfirmed rows (run h) = Unit
KeepsConfirmed rows (update id f) =
    (r : Row) → In r rows → event_id_of r ≡ id → is_confirmed r ≡ true → Keeps r f

module _ {Hook : Type 0} (u : TextTables) (c : Caller Hook) where
  Keeps-of_Coherent :
      (rows : List Row)
      → Coherent rows
      → (e r : Row) (f : Row) → In e rows
      → In r rows
      → event_id_of r ≡ event_id_of e
      → Keeps e f
      → Keeps r f
  Keeps-of_Coherent rows h e r f he hr same k = record {
    status = k.status;
    venue = k.venue;
    resolution = k.resolution;
    confidence = k.confidence;
    linked_by = k.linked_by;
    linked_at = k.linked_at;
    edits = λ g m z. k.edits g m (rw (← h.same_edits r e hr he same) z);
  }

  hook_write-All :
      (rows : List Row) (hook : Option Hook) → All (KeepsConfirmed rows) (hook_write hook)
  hook_write-All rows none = tt
  hook_write-All rows (some h) = (tt, tt)

  -- A row of the same event is confirmed as well.
  confirmed_together :
      (rows : List Row)
      → Coherent rows
      → (e r : Row) → In e rows
      → In r rows
      → event_id_of r ≡ event_id_of e
      → is_confirmed r ≡ true
      → is_confirmed e ≡ true
  confirmed_together rows h e r he hr same k =
      rw (← ap (is_text "confirmed") (h.same_status r e hr he same)) k

  existing_writes-KeepsConfirmed :
      (rows : List Row)
      → Coherent rows
      → (e p : Row) (index : ℕ) (key : String) → In e rows
      → All (KeepsConfirmed rows) (existing_writes u c e p index key)
  unfolding existing_writes
  existing_writes-KeepsConfirmed rows h e p index key he = elim (Bool-cases (is_confirmed e)) [
    | inl yes_confirmed ↦ rw yes_confirmed (
      λ r hr same k.
          Keeps-of_Coherent rows h e r (confirmed_write u c e p key) he hr same
            (confirmed_write-Keeps u c e p key),
      tt,
    )
    | inr not_confirmed ↦ rw not_confirmed (
      λ r hr same k.
          absurd (true_and_false _ (confirmed_together rows h e r he hr same k) not_confirmed),
      hook_write-All rows (refreshed_fields u c e p index key).1,
    )
  ]

  new_writes-KeepsConfirmed :
      (rows : List Row) (p : Row) (index : ℕ) (key id : String)
      → All (KeepsConfirmed rows) (new_writes u c p index key id)
  unfolding new_writes
  new_writes-KeepsConfirmed rows p index key id = (tt, hook_write-All rows _)

  -- The mark of a protected row that the extraction no longer yields.
  pub absent_mark-Keeps : (row r : Row) → Keeps r (absent_mark u c row)
  absent_mark-Keeps row r = record {
    status = refl;
    venue = refl;
    resolution = refl;
    confidence = refl;
    linked_by = refl;
    linked_at = refl;
    edits = λ g m z. ground (arith, content-bookkeeping g m);
  }

  retire-KeepsConfirmed :
      (rows : List Row)
      → Coherent rows
      → (r : Row) → In r rows
      → All (KeepsConfirmed rows) (retire u c r)
  retire-KeepsConfirmed rows h r hr = elim (Bool-cases (is_null (get r "source_event_key"))) [
    | inl unkeyed ↦ rw unkeyed tt
    | inr keyed ↦ rw keyed (elim (Bool-cases (is_protected r)) [
      | inl held ↦ rw held (λ s hs same k. absent_mark-Keeps r s, tt)
      | inr free ↦ rw free (
        λ s hs same k. absurd (neither_true _ _ (confirmed_together rows h r s hr hs same k) free),
        tt,
      )
    ])
  ]

-- Where the rows of one event agree on its status and on its record of edits, no update of a
-- confirmed event in one run touches its status, its venue or any other attribution column, a
-- protectable field that an operator edited, or, where no record of edits exists, any protectable
-- field, the line-up or the attractions: whatever the extraction, the attribution and the other rows
-- of the post are.
pub reconcile_post_events-KeepsConfirmed :
    {Hook : Type 0} (u : TextTables) (c : Caller Hook) (rows prepared : List Row)
    → Coherent rows
    → All (KeepsConfirmed rows) (reconcile_post_events u c rows prepared).writes
reconcile_post_events-KeepsConfirmed u c rows prepared h =
    reconcile_post_events-All u c rows prepared (KeepsConfirmed rows)
      (λ e p index key he hp. existing_writes-KeepsConfirmed u c rows h e p index key he)
      (λ p index key id hp. new_writes-KeepsConfirmed u c rows p index key id)
      (λ r hr. retire-KeepsConfirmed u c rows h r hr) (Among-self rows) (Among-self prepared)
