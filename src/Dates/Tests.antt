-- ===== src/Dates/Tests.antt =====
-- The theorems on dates at concrete inputs, and runs of the resolution. The tables are those of ASCII,
-- with the letters of Latin-1 as word characters.
use cs_server.Prelude.{
  ℕ, String, ◌≡◌, refl, ap, Bool, true, false, ◌&&◌, ◌||◌, none, some, List, [], ◌∷◌, ◌==◌, arith,
}
use cs_server.Python.Except.{Result, ok, raised, key_error}
use cs_server.Python.Date.{Date, on, make_date, ordinal, month_length}
use cs_server.Python.Date.Ordinal.{IsDate}
use cs_server.Python.Json.{codes}
use cs_server.Python.Regex.{Text, Unicode, strip, search_from, number_from, finditer_from}
use cs_server.Python.Regex.Plain.{EachWord}
use cs_server.Python.Ascii.{lower_char, lower_all, ascii}
use cs_server.Dates.Patterns.{weekdays, months, month_abbreviations, longest_first}
use cs_server.Dates.Resolve.{resolved, invalid, without_year, detect_recurrence}
use cs_server.Dates.Event.{naive, as_recife, ResolvedDate, Instant, resolve_event_datetime}
use cs_server.Dates.Outcome.{IsSound, resolve_event_datetime-IsSound}
use cs_server.Dates.Recurring.{IsWeekly, resolve_event_datetime-IsWeekly}
use cs_server.Dates.Errors.{OnlyOverflows}
use cs_server.Dates.Errors.Words.{LowersWords, IsPlain}
use cs_server.Dates.Errors.Raised.{resolve_event_datetime-OnlyOverflows}

-- The fold of Python's `re` by which an i also matches a dotless i.
abbrev dotless : Unicode
dotless = record ascii { same_letter = λ k c. k == lower_char c || k == 105 && c == 305 }

abbrev resolve : Unicode → String → String → Date → Result ResolvedDate
resolve u d t post =
    resolve_event_datetime u {A = Date} (λ a. a) (some (codes d)) (some (codes t)) (naive post)

-- A Wednesday.
abbrev posted : Date
posted = on 2026 8 5

posted-IsDate : IsDate posted
unfolding month_length
posted-IsDate = record {
  year_from = omega arith;
  year_to = omega arith;
  month_from = omega arith;
  month_to = omega arith;
  day_from = omega arith;
  day_to = omega arith;
}

abbrev instant : Date → ℕ → ℕ → Instant
instant d h m = record { date = d; hour = h; minute = m }

-- "sábado 15/08", a Saturday, to past midnight.
abbrev night : ResolvedDate
night = record {
  starts_at = some (instant (on 2026 8 15) 22 0);
  ends_at = some (instant (on 2026 8 16) 4 0);
  is_recurring = false;
  recurrence_text = none;
  needs_review = false;
  review_reason = none;
  time_known = true;
}

night_run : resolve ascii "Sábado 15/08" "22h às 04h" posted ≡ ok night
unfolding resolve_event_datetime search_from number_from finditer_from
night_run = refl

-- A Friday was said.
mismatch_run :
    resolve ascii "sexta, 15/08" "" posted
    ≡ ok (record {
      starts_at = some (instant (on 2026 8 15) 0 0);
      ends_at = none;
      is_recurring = false;
      recurrence_text = none;
      needs_review = true;
      review_reason = some "weekday_mismatch";
      time_known = false;
    })
unfolding resolve_event_datetime search_from number_from
mismatch_run = refl

-- A numeral that no pattern took: no date.
numeral_run :
    resolve ascii "sexta 15 xyz" "20:30" posted
    ≡ ok (record {
      starts_at = none;
      ends_at = none;
      is_recurring = false;
      recurrence_text = none;
      needs_review = true;
      review_reason = some "missing_date";
      time_known = false;
    })
unfolding resolve_event_datetime search_from
numeral_run = refl

-- The 29th of February after a post of March 2027 is in 2028, and is not found.
leap_day : without_year (on 2027 3 1) 2 29 ≡ invalid
unfolding without_year
leap_day = refl

leap_day_exists : make_date 2028 2 29 ≡ some (on 2028 2 29)
unfolding make_date
leap_day_exists = refl

dotless_run :
    resolve_event_datetime dotless {A = Date}
      (λ a. a)
      (some (b'5' ∷ 32 ∷ b'm' ∷ b'a' ∷ 305 ∷ b'o' ∷ []))
      none
      (naive posted)
    ≡ raised key_error
unfolding resolve_event_datetime search_from
dotless_run = refl

january : without_year posted 1 5 ≡ resolved (on 2027 1 5)
unfolding without_year
january = refl

resolve_event_datetime-IsSound_example : IsSound posted night
unfolding as_recife
resolve_event_datetime-IsSound_example =
    resolve_event_datetime-IsSound ascii {A = Date} (λ a. a) (some (codes "Sábado 15/08"))
      (some (codes "22h às 04h")) (naive posted) night posted-IsDate night_run

thursdays : detect_recurrence ascii (some (codes "toda quinta ")) ≡ ok (some 3)
unfolding detect_recurrence search_from
thursdays = refl

resolve_event_datetime-IsWeekly_example :
    (r : ResolvedDate) × ((resolve ascii "toda quinta " "10 pm" posted ≡ ok r)
      × IsWeekly posted 3 (some (codes "toda quinta")) r)
unfolding ordinal strip resolve_event_datetime
resolve_event_datetime-IsWeekly_example =
    resolve_event_datetime-IsWeekly ascii {A = Date} (λ a. a) (some (codes "toda quinta "))
      (some (codes "10 pm")) (naive posted) 3 thursdays posted-IsDate (omega arith)

abbrev all_small : Text → Bool
all_small [] = true
all_small (c ∷ cs) = lower_char c == c && all_small cs

small-IsPlain : (cs : Text) → all_small cs ≡ true → IsPlain ascii cs
small-IsPlain [] h = tt
small-IsPlain (c ∷ cs) h = (λ k e. ground arith, small-IsPlain cs (ground arith))

small-lower : (cs : Text) → all_small cs ≡ true → lower_all cs ≡ cs
small-lower [] h = refl
small-lower (c ∷ cs) h =
    let same : lower_char c ≡ c = ground arith in
    rw (small-lower cs (ground arith)) (ap (λ x. x ∷ cs) same)

abbrev each_small : List Text → Bool
each_small [] = true
each_small (w ∷ ws) = all_small w && each_small ws

EachWord-small : (ws : List Text) → each_small ws ≡ true → EachWord (λ w. lower_all w ≡ w) ws
EachWord-small [] h = tt
EachWord-small (w ∷ ws) h = (small-lower w (ground arith), EachWord-small ws (ground arith))

ascii-LowersWords : LowersWords ascii
ascii-LowersWords = record {
  weekdays_stay = EachWord-small (longest_first weekdays) refl;
  months_stay = EachWord-small (longest_first months) refl;
  abbreviations_stay = EachWord-small month_abbreviations refl;
}

saturday-IsPlain : IsPlain ascii (lower_all (strip ascii (codes "Sexta 15/08")))
unfolding strip
saturday-IsPlain = small-IsPlain (lower_all (strip ascii (codes "Sexta 15/08"))) refl

resolve_event_datetime-OnlyOverflows_example :
    OnlyOverflows (resolve ascii "Sexta 15/08" "22h" posted)
resolve_event_datetime-OnlyOverflows_example =
    resolve_event_datetime-OnlyOverflows ascii ascii-LowersWords {A = Date} (λ a. a)
      (codes "Sexta 15/08") (some (codes "22h")) (naive posted) saturday-IsPlain
