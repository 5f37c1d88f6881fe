-- ===== src/Dates/Event.antt =====
-- `resolve_event_datetime` of app/services/event_date_resolver.py. The zone database is a parameter:
-- `recife_date` gives the calendar day in Recife of a timestamp that has a zone.
use cs_server.Prelude.{
  ℕ, ◌+◌, ◌*◌, String, Bool, true, false, ◌&&◌, ◌||◌, Option, none, some, ◌==◌, leb, ltb,
  if◌then◌else◌,
}
use cs_server.Python.Except.{Result, ok, and_then}
use cs_server.Python.Date.{Date, add_days, ordinal}
use cs_server.Python.Regex.{Text, Unicode, strip}
use cs_server.Python.Text.{is_empty}
use cs_server.Dates.Resolve.{
  Time, reason_missing_date, next_weekday_on_or_after, resolve_explicit_date, detect_recurrence,
  parse_time_text,
}

-- A timestamp: its day alone matters where it has no zone.
pub data Timestamp (A : Type 0) : Type 0 where
  naive : Date → Timestamp A
  aware : A → Timestamp A

-- An instant in the time of Recife.
pub record Instant : Type 0 where
  pub date : Date
  pub hour : ℕ
  pub minute : ℕ

-- The minutes since the day before 0001-01-01.
unfoldable pub minutes : Instant → ℕ
unfolding ordinal
minutes i = ordinal i.date * 1440 + i.hour * 60 + i.minute

pub record ResolvedDate : Type 0 where
  pub starts_at : Option Instant
  pub ends_at : Option Instant
  pub is_recurring : Bool
  pub recurrence_text : Option Text
  pub needs_review : Bool
  pub review_reason : Option String
  pub time_known : Bool

abbrev pub is_some : {A : Type 0} → Option A → Bool
is_some none = false
is_some (some a) = true

abbrev pub or_midnight : Option Time → Time
or_midnight none = (0, 0)
or_midnight (some t) = t

-- `a <= b`
abbrev pub time_le : Time → Time → Bool
time_le a b = ltb a.0 b.0 || a.0 == b.0 && leb a.1 b.1

abbrev pub at_time : Date → Time → Instant
at_time d t = record { date = d; hour = t.0; minute = t.1 }

-- The end, on the next day where the range wraps past midnight.
unfoldable pub end_of : Date → Time → Option Time → Result (Option Instant)
unfolding add_days
end_of d start none = ok none
end_of d start (some t) =
    let next = add_days 1 d in
    and_then (if time_le t start then next else ok d) λ e. ok (some (at_time e t))

abbrev or_missing : Option String → Option String
or_missing none = some reason_missing_date
or_missing (some r) = some r

-- What is returned without a date.
abbrev pub undated : Bool → Option Text → Option String → ResolvedDate
undated recurring said reason = record {
  starts_at = none;
  ends_at = none;
  is_recurring = recurring;
  recurrence_text = said;
  needs_review = true;
  review_reason = or_missing reason;
  time_known = false;
}

-- What is returned with a date.
abbrev pub dated :
    Bool → Option Text → Option String → Date → Option Time → Option Instant → ResolvedDate
dated recurring said reason d start ends = record {
  starts_at = some (at_time d (or_midnight start));
  ends_at = ends;
  is_recurring = recurring;
  recurrence_text = said;
  needs_review = is_some reason;
  review_reason = reason;
  time_known = is_some start;
}

-- The part after the date was looked for, with the times that the text states.
unfoldable pub with_times :
    Bool
    → Option Text
    → Option Date × Option String
    → Option Time × Option Time
    → Result ResolvedDate
unfolding end_of
with_times recurring said (none, reason) t = ok (undated recurring said reason)
with_times recurring said (some d, reason) t =
    and_then (end_of d (or_midnight t.0) t.1) λ ends. ok (dated recurring said reason d t.0 ends)

module _ (u : Unicode) {A : Type 0} (recife_date : A → Date) where
  unfoldable pub as_recife : Timestamp A → Date
  as_recife (naive d) = d
  as_recife (aware a) = recife_date a

  abbrev pub stripped : Option Text → Option Text
  stripped none = none
  stripped (some t) = some (strip u t)

  -- Where no recurrence was found.
  abbrev pub single_date : Option Text → Date → Result (Option Date × Option String)
  single_date none anchor = ok (none, none)
  single_date (some t) anchor =
      let explicit = resolve_explicit_date u t anchor in
      if is_empty t || is_empty (strip u t) then ok (none, none) else explicit

  -- The date, the review reason, whether it recurs, and the words of the recurrence.
  abbrev pub resolve_after : Option ℕ → Option Text → Option Text → Date → Result ResolvedDate
  resolve_after none date_text time_text anchor =
      and_then (single_date date_text anchor)
        λ r. with_times false none r (parse_time_text u time_text)
  resolve_after (some w) date_text time_text anchor =
      and_then (next_weekday_on_or_after anchor w)
        λ d. with_times true (stripped date_text) (some d, none) (parse_time_text u time_text)

  unfoldable pub resolve_event_datetime :
      Option Text → Option Text → Timestamp A → Result ResolvedDate
  unfolding as_recife strip next_weekday_on_or_after resolve_explicit_date detect_recurrence
      parse_time_text with_times
  resolve_event_datetime date_text time_text post =
      and_then (detect_recurrence u date_text)
        λ w. resolve_after w date_text time_text (as_recife post)
