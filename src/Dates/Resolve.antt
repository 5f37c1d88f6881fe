-- ===== src/Dates/Resolve.antt =====
-- The functions of app/services/event_date_resolver.py. A text is its list of code points. An instant
-- is a date, an hour and a minute, in the time of Recife.
use cs_server.Prelude.{
  ℕ, ◌+◌, ◌-◌, ◌%◌, String, not, ◌&&◌, ◌||◌, Option, none, some, List, [], ◌∷◌, ◌==◌, leb, ltb,
  if◌then◌else◌,
}
use cs_server.Python.Except.{Result, ok, raised, key_error, and_then}
use cs_server.Python.Date.{Date, make_date, add_days, weekday, date_le}
use cs_server.Python.Json.{codes}
use cs_server.Python.Regex.{Text, Unicode, search, finditer, number, strip}
use cs_server.Python.Text.{is_empty, text_eq, is_one_of}
use cs_server.Dates.Patterns.{
  Table, Numbers, Named, Token, weekdays, months, weekday_pattern, recurring_marker,
  numeric_date_pattern, textual_date_pattern, reversed_date_pattern, bare_numeral, time_token,
}

abbrev pub reason_missing_date : String
reason_missing_date = "missing_date"

abbrev pub reason_weekday_mismatch : String
reason_weekday_mismatch = "weekday_mismatch"

-- An hour and a minute.
abbrev pub Time : Type 0
Time = ℕ × ℕ

-- `table[word]`
unfoldable pub entry_of : Table → Text → Result ℕ
unfolding text_eq
entry_of [] w = raised key_error
entry_of ((v, n) ∷ rest) w = let later = entry_of rest w in if text_eq v w then ok n else later

-- What a finder of explicit dates says: its pattern did not fire, it fired on no real date, or a date.
pub data Found : Type 0 where
  no_match invalid : Found
  resolved : Date → Found

abbrev pub found_date : Option Date → Found
found_date none = invalid
found_date (some t) = resolved t

unfoldable pub next_weekday_on_or_after : Date → ℕ → Result Date
unfolding add_days weekday
next_weekday_on_or_after anchor w = add_days ((w + 7 - weekday anchor) % 7) anchor

unfoldable pub roll_forward : Date → Date → ℕ → ℕ → ℕ → Option Date
unfolding make_date
roll_forward candidate anchor year month day =
    if date_le anchor candidate then some candidate else make_date (year + 1) month day

-- A day and a month in the year of the anchor, rolled forward.
abbrev roll_candidate : Option Date → Date → ℕ → ℕ → Found
roll_candidate none anchor month day = invalid
roll_candidate (some c) anchor month day = found_date (roll_forward c anchor anchor.year month day)

unfoldable pub without_year : Date → ℕ → ℕ → Found
unfolding make_date roll_forward
without_year anchor month day = roll_candidate (make_date anchor.year month day) anchor month day

abbrev full_year : ℕ → ℕ
full_year y = if ltb y 100 then y + 2000 else y

module _ (u : Unicode) where
  abbrev pub numeric_of : Option Numbers → Date → Found
  numeric_of none anchor = no_match
  numeric_of (some g) anchor = elim g.year [
    | none ↦ without_year anchor (number u g.month) (number u g.day)
    | some y ↦ found_date (make_date (full_year (number u y)) (number u g.month) (number u g.day))
  ]

  unfoldable pub numeric_date : Text → Date → Found
  unfolding numeric_date_pattern without_year
  numeric_date text anchor = numeric_of (search (numeric_date_pattern u) text) anchor

  -- `_MONTHS[name.lower()]` before the date.
  abbrev pub named_of : Option Named → Date → Result Found
  named_of none anchor = ok no_match
  named_of (some g) anchor =
      and_then (entry_of months (u.lower g.month)) λ m. ok (without_year anchor m (number u g.day))

  abbrev pub first_of : Option Named → Option Named → Option Named
  first_of none b = b
  first_of (some a) b = some a

  unfoldable pub textual_date : Text → Date → Result Found
  unfolding entry_of textual_date_pattern reversed_date_pattern without_year
  textual_date text anchor =
      named_of
        (first_of (search (textual_date_pattern u) text) (search (reversed_date_pattern u) text))
        anchor

  abbrev pub weekday_of : Text → Result ℕ
  weekday_of w = entry_of weekdays (u.lower w)

  abbrev pub corroborate : Option Text → Date → Result (Option Date × Option String)
  corroborate none t = ok (some t, none)
  corroborate (some w) t =
      and_then (weekday_of w)
        λ n. ok (some t, if weekday t == n then none else some reason_weekday_mismatch)

  unfoldable pub corroborate_with_weekday : Text → Date → Result (Option Date × Option String)
  unfolding entry_of weekday_pattern weekday
  corroborate_with_weekday text t = corroborate (search (weekday_pattern u) text) t

  -- `some_date, None`
  abbrev pub no_reason : Result Date → Result (Option Date × Option String)
  no_reason r = and_then r λ t. ok (some t, none)

  abbrev pub weekday_alone : Option Text → Text → Date → Result (Option Date × Option String)
  weekday_alone none text anchor = ok (none, none)
  weekday_alone (some w) text anchor = elim (search (bare_numeral u) text) [
    | none ↦ and_then (weekday_of w) λ n. no_reason (next_weekday_on_or_after anchor n)
    | some _ ↦ ok (none, none)
  ]

  -- The end of `_resolve_explicit_date`, where no explicit date was found.
  unfoldable pub resolve_weekday : Text → Date → Result (Option Date × Option String)
  unfolding entry_of weekday_pattern bare_numeral next_weekday_on_or_after
  resolve_weekday text anchor = weekday_alone (search (weekday_pattern u) text) text anchor

  -- One round of the loop over the finders; `more` is what follows where the pattern did not fire.
  abbrev pub use_found :
      Found → Text → Result (Option Date × Option String) → Result (Option Date × Option String)
  use_found no_match text more = more
  use_found invalid text more = ok (none, none)
  use_found (resolved t) text more = corroborate_with_weekday text t

  unfoldable pub resolve_pattern : Text → Date → Result (Option Date × Option String)
  unfolding numeric_date textual_date corroborate_with_weekday resolve_weekday
  resolve_pattern text anchor =
      use_found (numeric_date text anchor) text
        (and_then (textual_date text anchor) λ f. use_found f text (resolve_weekday text anchor))

  abbrev pub today_words : List Text
  today_words = codes "hoje" ∷ codes "hoje à noite" ∷ codes "hoje a noite" ∷ []

  abbrev pub tomorrow_words : List Text
  tomorrow_words = codes "amanhã" ∷ codes "amanha" ∷ []

  unfoldable pub resolve_explicit_date : Text → Date → Result (Option Date × Option String)
  unfolding strip is_one_of add_days resolve_pattern
  resolve_explicit_date date_text anchor =
      let text = u.lower (strip u date_text) in
      let tomorrow = no_reason (add_days 1 anchor) in
      let pattern = resolve_pattern text anchor in
      if is_one_of text today_words
      then ok (some anchor, none)
      else (if is_one_of text tomorrow_words then tomorrow else pattern)

  abbrev pub recurring_day : Option Text → Result (Option ℕ)
  recurring_day none = ok none
  recurring_day (some w) = and_then (weekday_of w) λ n. ok (some n)

  abbrev pub recurrence_in : Text → Result (Option ℕ)
  recurrence_in text = elim (search (recurring_marker u) text) [
    | none ↦ ok none
    | some _ ↦ recurring_day (search (weekday_pattern u) text)
  ]

  unfoldable pub detect_recurrence : Option Text → Result (Option ℕ)
  unfolding strip entry_of recurring_marker weekday_pattern
  detect_recurrence none = ok none
  detect_recurrence (some t) = if is_empty t then ok none else recurrence_in (u.lower (strip u t))

  abbrev minute_of : Option Text → ℕ
  minute_of none = 0
  minute_of (some t) = number u t

  -- The hour on the clock of 24 hours.
  abbrev hour_24 : ℕ → Text → ℕ
  hour_24 h meridiem =
      if text_eq meridiem (codes "pm") && ltb h 12
      then h + 12
      else (if text_eq meridiem (codes "am") && h == 12 then 0 else h)

  abbrev meridiem_of : Option Text → Text
  meridiem_of none = []
  meridiem_of (some t) = u.lower t

  abbrev pub token_hour : Token → ℕ
  token_hour g = hour_24 (number u g.hour) (meridiem_of g.meridiem)

  abbrev pub token_minute : Token → ℕ
  token_minute g = minute_of g.minute

  -- One round of the loop over the tokens of a time.
  unfoldable keep_token : Token → List Time → List Time
  unfolding text_eq strip
  keep_token g more =
      let h = token_hour g in
      let m = token_minute g in
      if is_empty (strip u g.whole) || not (leb h 23 && leb m 59) then more else (h, m) ∷ more

  unfoldable pub times_of : List Token → List Time
  unfolding keep_token
  times_of [] = []
  times_of (g ∷ gs) = keep_token g (times_of gs)

  unfoldable pub find_time_tokens : Text → List Time
  unfolding times_of time_token
  find_time_tokens text = times_of (finditer (time_token u) text)

  abbrev pub start_and_end : List Time → Option Time × Option Time
  start_and_end [] = (none, none)
  start_and_end (a ∷ []) = (some a, none)
  start_and_end (a ∷ b ∷ rest) = (some a, some b)

  unfoldable pub parse_time_text : Option Text → Option Time × Option Time
  unfolding strip find_time_tokens
  parse_time_text none = (none, none)
  parse_time_text (some t) =
      if is_empty t || is_empty (strip u t)
      then (none, none)
      else start_and_end (find_time_tokens t)
