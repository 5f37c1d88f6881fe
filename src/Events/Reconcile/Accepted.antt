-- ===== src/Events/Reconcile/Accepted.antt =====
-- Which status a run writes.
use cs_server.Prelude.{
  ◌≢◌, ◌≤◌, ap, ◌∙◌, not, true, eq_iff, arith, leb, ℕ, String, ◌≡◌, refl, ◌⊎◌, inl, inr, false,
  Option, none, some, List, if◌then◌else◌, Bool-cases,
}
use cs_server.Events.Row.{Row, Value, null, text, num, get, is_null}
use cs_server.Events.Identity.{TextTables}
use cs_server.Events.Protection.{is_clean_extraction, no_reason, at_least}
use cs_server.Events.Posts.{
  Write, insert, update, run, Caller, event_id_of, is_confirmed, is_manual, is_protected,
  hook_write, value_or,
}
use cs_server.Events.Reconcile.{
  existing_writes, new_writes, retire, reconcile_post_events, refreshed_fields,
}
use cs_server.Events.Reconcile.Writes.{All, In, Among-self, reconcile_post_events-All}
use cs_server.Events.Reconcile.Frozen.{confirmed_write-Keeps}

-- A row that needs no operator: it has no review reason, a start, a venue, and a confidence that
-- reaches the floor.
pub record IsClean (floor : ℕ) (venue : Value) (f : Row) : Type 0 where
  pub no_reason : (get f "review_reason" ≡ null) ⊎ (get f "review_reason" ≡ text "")
  pub has_start : ◌≢◌ {A = Value} (get f "starts_at") null
  pub has_venue : ◌≢◌ {A = Value} venue null
  pub is_sure : (n : ℕ) × ((get f "confidence" ≡ num n) × (floor ≤ n))

-- The status that the quality of a row calls for.
abbrev pub Settled : ℕ → Value → Row → Type 0
Settled floor venue f =
    ((get f "status" ≡ text "accepted") × IsClean floor venue f)
    ⊎ ((get f "status" ≡ text "pending_review") × ¬ IsClean floor venue f)

-- A write that is not about an operator's row settles the status by the quality of the extraction.
abbrev pub Settles : {Hook : Type 0} → List Row → ℕ → Write Hook → Type 0
Settles rows floor (run h) = Unit
Settles rows floor (insert f) = Settled floor (get f "venue_id") f
Settles rows floor (update id f) =
    ((r : Row) × In r rows
      × (event_id_of r ≡ id)
      × (is_confirmed r ≡ false)
      × Settled floor (value_or (get r "venue_id") (f "venue_id")) f)
    ⊎ (f "status" ≡ none)
    ⊎ (f "status" ≡ some (text "superseded"))

no_reason-cases : (v : Value) → no_reason v ≡ true → (v ≡ null) ⊎ (v ≡ text "")
no_reason-cases null h = inl refl
no_reason-cases (text t) h = inr (ap text ((eq_iff t "").0 h))
no_reason-cases v h = absurd (cc h)

not_null : (v : Value) → not (is_null v) ≡ true → ◌≢◌ {A = Value} v null
not_null v h e = cc (h, ap is_null e)

at_least-cases :
    (floor : ℕ) (v : Value) → at_least floor v ≡ true → (n : ℕ) × ((v ≡ num n) × (floor ≤ n))
at_least-cases floor (num n) h = (n, (refl, ground (arith, h)))
at_least-cases floor v h = absurd (cc h)

no_reason-true : (v : Value) → (v ≡ null) ⊎ (v ≡ text "") → no_reason v ≡ true
no_reason-true v (inl e) = ap no_reason e
no_reason-true v (inr e) = ap no_reason e

not_null-true : (v : Value) → ◌≢◌ {A = Value} v null → not (is_null v) ≡ true
not_null-true null h = absurd (h refl)
not_null-true v h = refl

at_least-true :
    (floor : ℕ) (v : Value) → (n : ℕ) × ((v ≡ num n) × (floor ≤ n)) → at_least floor v ≡ true
at_least-true floor v (n, (e, h)) =
    let reached : leb floor n ≡ true = ground arith in ap (at_least floor) e ∙ reached

extraction-IsClean :
    (floor : ℕ) (venue : Value) (f : Row)
    → is_clean_extraction
        (get f "review_reason")
        (get f "starts_at")
        venue
        (get f "confidence")
        floor
      ≡ true
    → IsClean floor venue f
unfolding is_clean_extraction
extraction-IsClean floor venue f h = record {
  no_reason = no_reason-cases (get f "review_reason") (ground arith);
  has_start = not_null (get f "starts_at") (ground arith);
  has_venue = not_null venue (ground arith);
  is_sure = at_least-cases floor (get f "confidence") (ground arith);
}

unclean-extraction :
    (floor : ℕ) (venue : Value) (f : Row)
    → is_clean_extraction
        (get f "review_reason")
        (get f "starts_at")
        venue
        (get f "confidence")
        floor
      ≡ false
    → ¬ IsClean floor venue f
unfolding is_clean_extraction
unclean-extraction floor venue f h c =
    let r = no_reason-true (get f "review_reason") c.no_reason in
    let d = not_null-true (get f "starts_at") c.has_start in
    let v = not_null-true venue c.has_venue in
    let s = at_least-true floor (get f "confidence") c.is_sure in ground (arith, h, r, d, v, s)

-- The status that is settled is the one that is called for.
settle-Settled :
    (floor : ℕ) (venue : Value) (f : Row)
    → get f "status" ≡ (
        if is_clean_extraction
          (get f "review_reason")
          (get f "starts_at")
          venue
          (get f "confidence")
          floor
        then text "accepted"
        else text "pending_review")
    → Settled floor venue f
settle-Settled floor venue f h =
    elim (Bool-cases (
      is_clean_extraction (get f "review_reason") (get f "starts_at") venue (get f "confidence")
        floor)) [
          | inl clean ↦ inl (h ∙ rw clean refl, extraction-IsClean floor venue f clean)
          | inr short ↦ inr (h ∙ rw short refl, unclean-extraction floor venue f short)
        ]

module _ {Hook : Type 0} (u : TextTables) (c : Caller Hook) (rows : List Row) where
  abbrev AllSettle : List (Write Hook) → Type 0
  AllSettle = All (Settles rows c.min_confidence)

  hook_write-Settles : (hook : Option Hook) → AllSettle (hook_write hook)
  hook_write-Settles none = tt
  hook_write-Settles (some h) = (tt, tt)

  refreshed-Settles :
      (e p : Row) (index : ℕ) (key : String)
      → let f = (refreshed_fields u c e p index key).0 in
        Settled c.min_confidence (value_or (get e "venue_id") (f "venue_id")) f
  unfolding refreshed_fields
  refreshed-Settles e p index key = elim (Bool-cases (is_manual e)) [
    | inl manual ↦ rw manual (settle-Settled c.min_confidence _ _ refl)
    | inr automatic ↦ rw automatic (settle-Settled c.min_confidence _ _ refl)
  ]

  existing_writes-Settles :
      (e p : Row) (index : ℕ) (key : String)
      → In e rows
      → AllSettle (existing_writes u c e p index key)
  unfolding existing_writes
  existing_writes-Settles e p index key he = elim (Bool-cases (is_confirmed e)) [
    | inl held ↦ rw held (inr (inl (confirmed_write-Keeps u c e p key).status), tt)
    | inr free ↦ rw free (
      inl (e, he, refl, free, refreshed-Settles e p index key),
      hook_write-Settles (refreshed_fields u c e p index key).1,
    )
  ]

  new_writes-Settles :
      (p : Row) (index : ℕ) (key id : String) → AllSettle (new_writes u c p index key id)
  unfolding new_writes
  new_writes-Settles p index key id =
      (settle-Settled c.min_confidence _ _ refl, hook_write-Settles _)

  retire-Settles : (r : Row) → In r rows → AllSettle (retire u c r)
  retire-Settles r hr = elim (Bool-cases (is_null (get r "source_event_key"))) [
    | inl unkeyed ↦ rw unkeyed tt
    | inr keyed ↦ rw keyed (elim (Bool-cases (is_protected r)) [
      | inl held ↦ rw held (inr (inl refl), tt)
      | inr free ↦ rw free (inr (inr refl), tt)
    ])
  ]

-- Every status that a run writes is `superseded`, or it is `accepted` exactly where the written row is
-- clean (no review reason, a start, a linked venue, and a confidence that reaches the floor) and
-- `pending_review` where it is not; the venue counts as linked where this run or the stored row has one.
-- Only rows that are not confirmed are settled so.
pub reconcile_post_events-Settles :
    {Hook : Type 0} (u : TextTables) (c : Caller Hook) (rows prepared : List Row)
    → All (Settles rows c.min_confidence) (reconcile_post_events u c rows prepared).writes
reconcile_post_events-Settles u c rows prepared =
    reconcile_post_events-All u c rows prepared (Settles rows c.min_confidence)
      (λ e p index key he hp. existing_writes-Settles u c rows e p index key he)
      (λ p index key id hp. new_writes-Settles u c rows p index key id) (retire-Settles u c rows)
      (Among-self rows) (Among-self prepared)
