-- ===== src/Dates/Errors/Raised.antt =====
-- `resolve_event_datetime` raises OverflowError at most.
use cs_server.Prelude.{
  ℕ, Bool, true, false, ◌||◌, Option, none, some, String, Option-cases, Bool-cases, inl, inr,
}
use cs_server.Python.Except.{Result}
use cs_server.Python.Date.{Date, add_days}
use cs_server.Python.Regex.{Text, Unicode, search, strip}
use cs_server.Python.Regex.Found.{Found}
use cs_server.Dates.Patterns.{
  Table, Named, weekdays, months, weekday_pattern, textual_date_pattern, reversed_date_pattern,
  recurring_marker, bare_numeral,
}
use cs_server.Python.Text.{is_empty, is_one_of}
use cs_server.Dates.Resolve.{
  Time, Found as FoundDate, no_match, invalid, resolved, today_words, tomorrow_words, entry_of,
  weekday_of, next_weekday_on_or_after, numeric_date, named_of, first_of, textual_date, corroborate,
  corroborate_with_weekday, weekday_alone, resolve_weekday, use_found, resolve_pattern,
  resolve_explicit_date, recurring_day, recurrence_in, detect_recurrence,
}
use cs_server.Dates.Errors.{
  OnlyOverflows, ok-OnlyOverflows, and_then-OnlyOverflows, add_days-OnlyOverflows,
}
use cs_server.Dates.Errors.Words.{
  LowersWords, IsPlain, HasKey, HasMonth, weekday-HasKey, textual-HasMonth, reversed-HasMonth,
}
use cs_server.Dates.Event.{
  as_recife, Timestamp, time_le, end_of, or_midnight, with_times, single_date, resolve_after,
  resolve_event_datetime,
}

module _ (u : Unicode) (law : LowersWords u) where
  lookup-OnlyOverflows :
      (table : Table) (w : Text) → HasKey u table w → OnlyOverflows (entry_of table (u.lower w))
  lookup-OnlyOverflows table w ((n, h), e) = rw (e, h) (ok-OnlyOverflows n)

  weekday_of-OnlyOverflows : (w : Text) → HasKey u weekdays w → OnlyOverflows (weekday_of u w)
  weekday_of-OnlyOverflows = lookup-OnlyOverflows weekdays

  named_of-OnlyOverflows :
      (g : Option Named) (anchor : Date)
      → Found (HasMonth u) g
      → OnlyOverflows (named_of u g anchor)
  named_of-OnlyOverflows none anchor h = ok-OnlyOverflows _
  named_of-OnlyOverflows (some g) anchor h =
      and_then-OnlyOverflows (entry_of months (u.lower g.month)) _
        (lookup-OnlyOverflows months g.month h) (λ m. ok-OnlyOverflows _)

  first_of-HasMonth :
      (a b : Option Named)
      → Found (HasMonth u) a
      → Found (HasMonth u) b
      → Found (HasMonth u) (first_of u a b)
  first_of-HasMonth none b h g = g
  first_of-HasMonth (some a) b h g = h

  textual_date-OnlyOverflows :
      (text : Text) (anchor : Date) → IsPlain u text → OnlyOverflows (textual_date u text anchor)
  unfolding textual_date
  textual_date-OnlyOverflows text anchor h = named_of-OnlyOverflows _ anchor (
      first_of-HasMonth (search (textual_date_pattern u) text)
        (search (reversed_date_pattern u) text) (textual-HasMonth u law text h)
        (reversed-HasMonth u law text h))

  corroborate-OnlyOverflows :
      (w : Option Text) (t : Date) → Found (HasKey u weekdays) w → OnlyOverflows (corroborate u w t)
  corroborate-OnlyOverflows none t h = ok-OnlyOverflows _
  corroborate-OnlyOverflows (some w) t h =
      and_then-OnlyOverflows (weekday_of u w) _ (weekday_of-OnlyOverflows w h)
        (λ n. ok-OnlyOverflows _)

  next_weekday-OnlyOverflows :
      (anchor : Date) (n : ℕ) → OnlyOverflows (next_weekday_on_or_after anchor n)
  unfolding next_weekday_on_or_after
  next_weekday-OnlyOverflows anchor n = add_days-OnlyOverflows _ anchor

  weekday_alone-OnlyOverflows :
      (w : Option Text) (text : Text) (anchor : Date)
      → Found (HasKey u weekdays) w
      → OnlyOverflows (weekday_alone u w text anchor)
  weekday_alone-OnlyOverflows none text anchor h = ok-OnlyOverflows _
  weekday_alone-OnlyOverflows (some w) text anchor h =
      elim (Option-cases (search (bare_numeral u) text)) [
        | inl e ↦
            rw (weekday_alone, e)
              (and_then-OnlyOverflows (weekday_of u w) _ (weekday_of-OnlyOverflows w h) λ n.
                and_then-OnlyOverflows (next_weekday_on_or_after anchor n) _
                  (next_weekday-OnlyOverflows anchor n) (λ t. ok-OnlyOverflows _))
        | inr (x, e) ↦ rw (weekday_alone, e) (ok-OnlyOverflows _)
      ]

  use_found-OnlyOverflows :
      (f : FoundDate) (text : Text) (more : Result (Option Date × Option String))
      → IsPlain u text
      → OnlyOverflows more
      → OnlyOverflows (use_found u f text more)
  unfolding corroborate_with_weekday
  use_found-OnlyOverflows no_match text more h g = g
  use_found-OnlyOverflows invalid text more h g = ok-OnlyOverflows _
  use_found-OnlyOverflows (resolved t) text more h g =
      corroborate-OnlyOverflows _ t (weekday-HasKey u law text h)

  resolve_pattern-OnlyOverflows :
      (text : Text) (anchor : Date) → IsPlain u text → OnlyOverflows (resolve_pattern u text anchor)
  unfolding resolve_pattern resolve_weekday
  resolve_pattern-OnlyOverflows text anchor h =
      use_found-OnlyOverflows (numeric_date u text anchor) text _ h (
        and_then-OnlyOverflows (textual_date u text anchor) _
          (textual_date-OnlyOverflows text anchor h)
          λ f. use_found-OnlyOverflows f text _ h (
            weekday_alone-OnlyOverflows (search (weekday_pattern u) text) text anchor
              (weekday-HasKey u law text h)))

  resolve_explicit_date-OnlyOverflows :
      (t : Text) (anchor : Date)
      → IsPlain u (u.lower (strip u t))
      → OnlyOverflows (resolve_explicit_date u t anchor)
  unfolding resolve_explicit_date
  resolve_explicit_date-OnlyOverflows t anchor h =
      let text = u.lower (strip u t) in
      elim (Bool-cases (is_one_of text (today_words u))) [
        | inl a ↦ rw a (ok-OnlyOverflows _)
        | inr a ↦ elim (Bool-cases (is_one_of text (tomorrow_words u))) [
          | inl b ↦
              rw (a, b)
                (and_then-OnlyOverflows (add_days 1 anchor) _ (add_days-OnlyOverflows 1 anchor)
                  (λ d. ok-OnlyOverflows _))
          | inr b ↦ rw (a, b) (resolve_pattern-OnlyOverflows text anchor h)
        ]
      ]

  recurring_day-OnlyOverflows :
      (w : Option Text) → Found (HasKey u weekdays) w → OnlyOverflows (recurring_day u w)
  recurring_day-OnlyOverflows none h = ok-OnlyOverflows _
  recurring_day-OnlyOverflows (some w) h =
      and_then-OnlyOverflows (weekday_of u w) _ (weekday_of-OnlyOverflows w h)
        (λ n. ok-OnlyOverflows _)

  recurrence_in-OnlyOverflows :
      (text : Text) → IsPlain u text → OnlyOverflows (recurrence_in u text)
  recurrence_in-OnlyOverflows text h = elim (Option-cases (search (recurring_marker u) text)) [
    | inl e ↦ rw (recurrence_in, e) (ok-OnlyOverflows _)
    | inr (x, e) ↦
        rw (recurrence_in, e) (recurring_day-OnlyOverflows _ (weekday-HasKey u law text h))
  ]

  detect_recurrence-OnlyOverflows :
      (t : Text) → IsPlain u (u.lower (strip u t)) → OnlyOverflows (detect_recurrence u (some t))
  unfolding detect_recurrence
  detect_recurrence-OnlyOverflows t h = elim (Bool-cases (is_empty t)) [
    | inl b ↦ rw b (ok-OnlyOverflows none)
    | inr b ↦ rw b (recurrence_in-OnlyOverflows _ h)
  ]

  end_of-OnlyOverflows : (d : Date) (s : Time) (t : Option Time) → OnlyOverflows (end_of d s t)
  unfolding end_of
  end_of-OnlyOverflows d s none = ok-OnlyOverflows none
  end_of-OnlyOverflows d s (some t) = elim (Bool-cases (time_le t s)) [
    | inl b ↦ rw b (
        and_then-OnlyOverflows (add_days 1 d) _ (add_days-OnlyOverflows 1 d)
          (λ e. ok-OnlyOverflows _))
    | inr b ↦ rw b (ok-OnlyOverflows _)
  ]

  with_times-OnlyOverflows :
      (recurring : Bool) (said : Option Text) (r : Option Date × Option String)
      (t : Option Time × Option Time)
      → OnlyOverflows (with_times recurring said r t)
  unfolding with_times
  with_times-OnlyOverflows recurring said (none, why) t = ok-OnlyOverflows _
  with_times-OnlyOverflows recurring said (some d, why) t =
      and_then-OnlyOverflows (end_of d (or_midnight t.0) t.1) _ (end_of-OnlyOverflows d _ t.1)
        (λ o. ok-OnlyOverflows _)

  module _ {A : Type 0} (recife_date : A → Date) where
    single_date-OnlyOverflows :
        (t : Text) (anchor : Date)
        → IsPlain u (u.lower (strip u t))
        → OnlyOverflows (single_date u recife_date (some t) anchor)
    single_date-OnlyOverflows t anchor h = elim (Bool-cases (is_empty t || is_empty (strip u t))) [
      | inl b ↦ rw b (ok-OnlyOverflows _)
      | inr b ↦ rw b (resolve_explicit_date-OnlyOverflows t anchor h)
    ]

    resolve_after-OnlyOverflows :
        (w : Option ℕ) (t : Text) (time_text : Option Text) (anchor : Date)
        → IsPlain u (u.lower (strip u t))
        → OnlyOverflows (resolve_after u recife_date w (some t) time_text anchor)
    resolve_after-OnlyOverflows none t time_text anchor h =
        and_then-OnlyOverflows (single_date u recife_date (some t) anchor) _
          (single_date-OnlyOverflows t anchor h) (λ r. with_times-OnlyOverflows false none r _)
    resolve_after-OnlyOverflows (some w) t time_text anchor h =
        and_then-OnlyOverflows (next_weekday_on_or_after anchor w) _
          (next_weekday-OnlyOverflows anchor w)
          (λ d. with_times-OnlyOverflows true _ (some d, none) _)

    -- Where `str.lower` leaves the words of the tables as they are, and the date text, stripped and
    -- lowered, has no character that a letter of a pattern matches only by ignoring case: no lookup
    -- of a month or a weekday fails, and whatever the time text and the post, the one exception that
    -- can come out is OverflowError, of a date past the year 9999.
    pub resolve_event_datetime-OnlyOverflows :
        (t : Text) (time_text : Option Text) (post : Timestamp A)
        → IsPlain u (u.lower (strip u t))
        → OnlyOverflows (resolve_event_datetime u recife_date (some t) time_text post)
    unfolding resolve_event_datetime
    resolve_event_datetime-OnlyOverflows t time_text post h =
        and_then-OnlyOverflows (detect_recurrence u (some t)) _
          (detect_recurrence-OnlyOverflows t h)
          (λ w. resolve_after-OnlyOverflows w t time_text (as_recife u recife_date post) h)
