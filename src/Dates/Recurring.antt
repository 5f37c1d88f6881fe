-- ===== src/Dates/Recurring.antt =====
-- A recurring announcement always gets a date.
use cs_server.Prelude.{
  ℕ, ◌+◌, ◌≡◌, refl, ◌≤◌, true, false, Option, none, some, Bool-cases, inl, inr, arith,
}
use cs_server.Python.Except.{ok}
use cs_server.Python.Date.{Date, ordinal, weekday}
use cs_server.Python.Date.Ordinal.{IsDate, add_days_total, max_ordinal}
use cs_server.Python.Regex.{Text, Unicode}
use cs_server.Dates.Resolve.{Time, detect_recurrence, parse_time_text}
use cs_server.Dates.Event.{
  Timestamp, Instant, ResolvedDate, or_midnight, time_le, at_time, end_of, dated, with_times,
  stripped, resolve_event_datetime,
}
use cs_server.Dates.Weekday.{next_weekday_on_or_after_exact}
use cs_server.Dates.Outcome.{anchor_of, detect_recurrence-OptWeekday}

end_of_total :
    (d : Date) (s : Time) (t : Option Time)
    → IsDate d
    → ordinal d + 1 ≤ max_ordinal
    → (o : Option Instant) × (end_of d s t ≡ ok o)
unfolding end_of
end_of_total d s none v l = (none, refl)
end_of_total d s (some t) v l = elim (Bool-cases (time_le t s)) [
  | inl b ↦ let (e, h) = add_days_total 1 d v l in (some (at_time e t), rw (b, h) refl)
  | inr b ↦ (some (at_time d t), rw b refl)
]

-- A date on the weekday, in the week of the post, that needs no review.
pub record IsWeekly (anchor : Date) (w : ℕ) (said : Option Text) (r : ResolvedDate) : Type 0 where
  pub next :
      (i : Instant) × ((r.starts_at ≡ some i)
        × ((weekday i.date ≡ w)
            × ((ordinal anchor ≤ ordinal i.date) × (ordinal i.date ≤ ordinal anchor + 6))))
  pub unreviewed : (r.needs_review ≡ false) × (r.review_reason ≡ none)
  pub words : (r.is_recurring ≡ true) × (r.recurrence_text ≡ said)

module _ (u : Unicode) {A : Type 0} (recife_date : A → Date) where
  -- For a text that names a recurring weekday, whatever else it and the time say, and a post of a real
  -- date more than a week before the end of the calendar: a result is returned, its start is on that
  -- weekday within six days from the post, it is flagged as recurring with the stripped text, and it
  -- needs no review.
  pub resolve_event_datetime-IsWeekly :
      (date_text time_text : Option Text) (post : Timestamp A) (w : ℕ)
      → detect_recurrence u date_text ≡ ok (some w)
      → IsDate (anchor_of u recife_date post)
      → ordinal (anchor_of u recife_date post) + 7 ≤ max_ordinal
      → (r : ResolvedDate) × ((resolve_event_datetime u recife_date date_text time_text post ≡ ok r)
          × IsWeekly (anchor_of u recife_date post) w (stripped u recife_date date_text) r)
  unfolding resolve_event_datetime with_times
  resolve_event_datetime-IsWeekly date_text time_text post w h v room =
      let anchor = anchor_of u recife_date post in
      let l = (detect_recurrence-OptWeekday u recife_date date_text).of_value (some w) h in
      let (d, (e, (next, first))) = next_weekday_on_or_after_exact anchor w v l room in
      let t = parse_time_text u time_text in
      let (o, k) = end_of_total d (or_midnight t.0) t.1 next.real (omega (arith, next.to, room)) in
      (
        dated true (stripped u recife_date date_text) none d t.0 o,
        (
          rw (h, e, k) refl,
          record {
            next = (at_time d (or_midnight t.0), (refl, (next.named, (next.from, next.to))));
            unreviewed = (refl, refl);
            words = (refl, refl);
          },
        ),
      )
