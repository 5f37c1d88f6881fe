-- ===== src/Dates/Outcome.antt =====
-- What `resolve_event_datetime` promises of each field that it returns.
use cs_server.Prelude.{
  ℕ, ◌+◌, ◌≡◌, refl, sym, ap, subst, ◌⊎◌, inl, inr, ◌≤◌, ◌<◌, String, Bool, true, false, ◌||◌,
  Option, none, some, Option-cases, Bool-cases, arith,
}
use cs_server.Python.Except.{ok, Holds, ok-Holds, and_then-Holds}
use cs_server.Python.Date.{Date, ordinal}
use cs_server.Python.Date.Ordinal.{IsDate}
use cs_server.Python.Regex.{Text, Unicode, search, strip}
use cs_server.Dates.Patterns.{weekday_pattern, recurring_marker}
use cs_server.Python.Text.{is_empty}
use cs_server.Dates.Resolve.{
  Time, reason_missing_date, reason_weekday_mismatch, next_weekday_on_or_after, detect_recurrence,
  recurring_day, recurrence_in, weekday_of,
}
use cs_server.Dates.Event.{
  Timestamp, Instant, ResolvedDate, is_some, or_midnight, at_time, end_of, undated, dated,
  with_times, as_recife, single_date, resolve_after, resolve_event_datetime,
}
use cs_server.Dates.Weekday.{next_weekday_on_or_after-IsNext}
use cs_server.Dates.Sound.{Sound, resolve_explicit_date-Sound, weekday_of-bound}
use cs_server.Dates.Ends.{IsEnd, OptEnd, end_of-OptEnd}
use cs_server.Dates.Times.{IsTime, OptTime, IsSpan, parse_time_text-IsSpan}

-- Every field of a result, for a post of the day `anchor`.
pub record IsSound (anchor : Date) (r : ResolvedDate) : Type 0 where
  pub blank :
      r.starts_at ≡ none
      → (r.ends_at ≡ none) × ((r.review_reason ≡ some reason_missing_date) × (r.time_known ≡ false))
  pub starts :
      (i : Instant)
      → r.starts_at ≡ some i
      → IsDate i.date
        × (IsTime (i.hour, i.minute)
            × ((r.review_reason ≡ none) ⊎ (r.review_reason ≡ some reason_weekday_mismatch)))
  pub ends : (i e : Instant) → r.starts_at ≡ some i → r.ends_at ≡ some e → IsEnd i e
  pub untimed :
      (i : Instant)
      → r.starts_at ≡ some i
      → r.time_known ≡ false
      → (i.hour ≡ 0) × ((i.minute ≡ 0) × (r.ends_at ≡ none))
  pub review : r.needs_review ≡ is_some r.review_reason
  pub recurring :
      r.is_recurring ≡ true
      → (i : Instant) × ((r.starts_at ≡ some i)
          × ((ordinal anchor ≤ ordinal i.date)
              × ((ordinal i.date ≤ ordinal anchor + 6) × (r.review_reason ≡ none))))

or_midnight-IsTime : (t : Option Time) → OptTime t → IsTime (or_midnight t)
or_midnight-IsTime none h = (omega arith, omega arith)
or_midnight-IsTime (some t) h = h

OptEnd-IsEnd : (i e : Instant) (o : Option Instant) → OptEnd i o → o ≡ some e → IsEnd i e
OptEnd-IsEnd i e none h q = absurd (cc)
OptEnd-IsEnd i e (some x) h q = subst (IsEnd i) (cc q) h

undated-IsSound : (anchor : Date) (said : Option Text) → IsSound anchor (undated false said none)
undated-IsSound anchor said = record {
  blank = λ h. (refl, (refl, refl));
  starts = λ i h. absurd (cc);
  ends = λ i e h g. absurd (cc);
  untimed = λ i h g. absurd (cc);
  review = refl;
  recurring = λ h. absurd (cc);
}

-- The week of a recurring event, which has no reason for a review.
abbrev InWeek : Bool → Date → Date → Option String → Type 0
InWeek false anchor d why = Unit
InWeek true anchor d why =
    (ordinal anchor ≤ ordinal d) × ((ordinal d ≤ ordinal anchor + 6) × (why ≡ none))

abbrev Reasons : Option String → Type 0
Reasons why = (why ≡ none) ⊎ (why ≡ some reason_weekday_mismatch)

lone_start :
    (d : Date) (start : Option Time) (o : Option Instant) (i : Instant)
    → is_some start ≡ false
    → (start ≡ none → o ≡ none)
    → at_time d (or_midnight start) ≡ i
    → (i.hour ≡ 0) × ((i.minute ≡ 0) × (o ≡ none))
lone_start d none o i h lone e =
    (ap (λ (j : Instant). j.hour) (sym e), (ap (λ (j : Instant). j.minute) (sym e), lone refl))
lone_start d (some t) o i h lone e = absurd (cc)

in_week :
    (recurring : Bool) (anchor d : Date) (why : Option String)
    → recurring ≡ true
    → InWeek recurring anchor d why
    → InWeek true anchor d why
in_week true anchor d why h week = week
in_week false anchor d why h week = absurd (cc)

dated-IsSound :
    (anchor d : Date) (recurring : Bool) (said : Option Text) (why : Option String)
    (start : Option Time) (o : Option Instant)
    → IsDate d
    → Reasons why
    → InWeek recurring anchor d why
    → OptTime start
    → OptEnd (at_time d (or_midnight start)) o
    → (start ≡ none → o ≡ none)
    → IsSound anchor (dated recurring said why d start o)
dated-IsSound anchor d recurring said why start o v reasons week clock ends lone = record {
  blank = λ h. absurd (cc);
  starts = λ i h.
      subst (λ (j : Instant). IsDate j.date × (IsTime (j.hour, j.minute) × Reasons why)) (cc h)
        (v, (or_midnight-IsTime start clock, reasons));
  ends = λ i e h g. subst (λ j. IsEnd j e) (cc h) (OptEnd-IsEnd _ e o ends g);
  untimed = λ i h g. lone_start d start o i g lone (cc h);
  review = refl;
  recurring = λ h. (_, (refl, in_week recurring anchor d why h week));
}

end_of-none :
    (d : Date) (s : Time) (t : Option Time) → t ≡ none → Holds (λ o. o ≡ none) (end_of d s t)
unfolding end_of
end_of-none d s none h = ok-Holds _ refl
end_of-none d s (some t) h = absurd (cc)

with_times-IsSound :
    (anchor : Date) (recurring : Bool) (said : Option Text) (d : Date) (why : Option String)
    (t : Option Time × Option Time)
    → Sound (some d, why)
    → InWeek recurring anchor d why
    → IsSpan t
    → Holds (IsSound anchor) (with_times recurring said (some d, why) t)
unfolding with_times
with_times-IsSound anchor recurring said d why t h week span =
    and_then-Holds {P = λ o. OptEnd (at_time d (or_midnight t.0)) o × (t.0 ≡ none → o ≡ none)}
      (end_of d (or_midnight t.0) t.1) _
      (record {
        of_value = λ o e. (
          (end_of-OptEnd d _ t.1 h.0 (or_midnight-IsTime t.0 span.start) span.end).of_value o e,
          λ n. (end_of-none d _ t.1 (span.ordered n)).of_value o e,
        );
      })
      (λ o k.
        ok-Holds _
          (dated-IsSound anchor d recurring said why t.0 o h.0 h.1 week span.start k.0 k.1))

module _ (u : Unicode) {A : Type 0} (recife_date : A → Date) where
  abbrev pub anchor_of : Timestamp A → Date
  anchor_of = as_recife u recife_date

  single-IsSound :
      (anchor : Date) (r : Option Date × Option String) (t : Option Time × Option Time)
      → Sound r
      → IsSpan t
      → Holds (IsSound anchor) (with_times false none r t)
  unfolding with_times
  single-IsSound anchor (none, why) t h span = ok-Holds _ (rw h (undated-IsSound anchor none))
  single-IsSound anchor (some d, why) t h span =
      with_times-IsSound anchor false none d why t h tt span

  single_date-Sound :
      (date_text : Option Text) (anchor : Date)
      → IsDate anchor
      → Holds Sound (single_date u recife_date date_text anchor)
  single_date-Sound none anchor v = ok-Holds _ refl
  single_date-Sound (some t) anchor v = elim (Bool-cases (is_empty t || is_empty (strip u t))) [
    | inl b ↦ rw b (ok-Holds _ refl)
    | inr b ↦ rw b (resolve_explicit_date-Sound u anchor v t)
  ]

  abbrev OptWeekday : Option ℕ → Type 0
  OptWeekday none = Unit
  OptWeekday (some w) = w < 7

  resolve_after-IsSound :
      (w : Option ℕ) (date_text time_text : Option Text) (anchor : Date)
      → IsDate anchor
      → OptWeekday w
      → Holds (IsSound anchor) (resolve_after u recife_date w date_text time_text anchor)
  resolve_after-IsSound none date_text time_text anchor v l =
      and_then-Holds (single_date u recife_date date_text anchor) _
        (single_date-Sound date_text anchor v)
        (λ r h. single-IsSound anchor r _ h (parse_time_text-IsSpan u time_text))
  resolve_after-IsSound (some w) date_text time_text anchor v l =
      and_then-Holds (next_weekday_on_or_after anchor w) _
        (next_weekday_on_or_after-IsNext anchor w v l)
        (λ d next.
          with_times-IsSound anchor true _ d none _ (next.real, inl refl)
            (next.from, (next.to, refl)) (parse_time_text-IsSpan u time_text))

  recurring_day-OptWeekday : (w : Option Text) → Holds OptWeekday (recurring_day u w)
  recurring_day-OptWeekday none = ok-Holds none tt
  recurring_day-OptWeekday (some w) =
      and_then-Holds (weekday_of u w) _ (weekday_of-bound u w) (λ n l. ok-Holds (some n) l)

  recurrence_in-OptWeekday : (text : Text) → Holds OptWeekday (recurrence_in u text)
  recurrence_in-OptWeekday text = elim (Option-cases (search (recurring_marker u) text)) [
    | inl e ↦ rw (recurrence_in, e) (ok-Holds none tt)
    | inr (x, e) ↦
        rw (recurrence_in, e) (recurring_day-OptWeekday (search (weekday_pattern u) text))
  ]

  pub detect_recurrence-OptWeekday :
      (date_text : Option Text) → Holds OptWeekday (detect_recurrence u date_text)
  unfolding detect_recurrence
  detect_recurrence-OptWeekday none = ok-Holds none tt
  detect_recurrence-OptWeekday (some t) = elim (Bool-cases (is_empty t)) [
    | inl b ↦ rw b (ok-Holds none tt)
    | inr b ↦ rw b (recurrence_in-OptWeekday (u.lower (strip u t)))
  ]

  -- For a post of a real date, whatever the texts, each field of a result that is returned is right:
  -- without a date there is no end, the reason is the missing date and the time counts as unknown; with
  -- a date it is a real one with a time of the clock, and the reason, if any, is a weekday that
  -- disagrees; an end is after the start by at most a day; a time that is not known is midnight
  -- without an end; a review is asked for exactly where there is a reason; and a recurring event has
  -- a date in the week from the post and no reason.
  pub resolve_event_datetime-IsSound :
      (date_text time_text : Option Text) (post : Timestamp A) (r : ResolvedDate)
      → IsDate (anchor_of post)
      → resolve_event_datetime u recife_date date_text time_text post ≡ ok r
      → IsSound (anchor_of post) r
  unfolding resolve_event_datetime
  resolve_event_datetime-IsSound date_text time_text post r v =
      (and_then-Holds (detect_recurrence u date_text) _ (detect_recurrence-OptWeekday date_text)
          (λ w l. resolve_after-IsSound w date_text time_text (anchor_of post) v l)).of_value
        r
