-- ===== src/Dates/Errors.antt =====
-- Which exceptions the resolution of a date can raise.
pub mod Words
pub mod Raised
use cs_server.Prelude.{
  ℕ, zero, suc, ◌≡◌, refl, sym, ap, Bool, true, false, ◌&&◌, ◌||◌, Option, none, some, List, [],
  ◌∷◌, String, Option-cases, Bool-cases, inl, inr, if◌then◌else◌, ◌==◌, arith,
}
use cs_server.Python.Except.{Error, Result, ok, raised, overflow_error, key_error, and_then}
use cs_server.Python.Date.{Date, next_in_month, next_day, add_days, weekday}
use cs_server.Python.Regex.{Text, Unicode, Place, search, number, strip, is_digit}
use cs_server.Python.Regex.Plain
use cs_server.Python.Regex.Plain.{
  All, Plain, Left, Keeps, EachWord, then_all-All, one_of-Keeps, boundary-Keeps, between-Keeps,
  char-Keeps, many-Keeps, either-Keeps, optional-Keeps, >>=-Keeps, matched-Keeps, word-Keeps,
}
use cs_server.Python.Regex.Found.{Found}
use cs_server.Dates.Patterns.{
  Table, Named, Numbers, weekdays, months, month_abbreviations, longest_first, weekday_pattern,
  textual_date_pattern, reversed_date_pattern, recurring_marker, bare_numeral,
}
use cs_server.Dates.Resolve.{
  entry_of, weekday_of, next_weekday_on_or_after, numeric_date, named_of, first_of, textual_date,
  corroborate, corroborate_with_weekday, weekday_alone, resolve_weekday, use_found, resolve_pattern,
  resolve_explicit_date, recurring_day, recurrence_in, detect_recurrence, no_reason,
}

-- At most OverflowError, the error of a date past the year 9999.
pub record OnlyOverflows {A : Type 0} (r : Result A) : Type 0 where
  pub raises : (e : Error) → r ≡ raised e → e ≡ overflow_error

pub ok-OnlyOverflows : {A : Type 0} (a : A) → OnlyOverflows (ok a)
ok-OnlyOverflows a = record { raises = λ e h. absurd (cc) }

pub and_then-OnlyOverflows :
    {A B : Type 0} (r : Result A) (f : A → Result B)
    → OnlyOverflows r
    → ((a : A) → OnlyOverflows (f a))
    → OnlyOverflows (and_then r f)
and_then-OnlyOverflows (ok a) f h g = g a
and_then-OnlyOverflows (raised e) f h g = record { raises = λ x k. h.raises x (cc) }

next_in_month-OnlyOverflows : (n : ℕ) (t : Date) → OnlyOverflows (next_in_month n t)
unfolding next_in_month
next_in_month-OnlyOverflows n t = record { raises = λ e h. ground arith }

pub add_days-OnlyOverflows : (n : ℕ) (t : Date) → OnlyOverflows (add_days n t)
unfolding add_days
add_days-OnlyOverflows zero t = ok-OnlyOverflows t
add_days-OnlyOverflows (suc n) t =
    and_then-OnlyOverflows (next_day t) (add_days n) (next_in_month-OnlyOverflows _ t)
      (add_days-OnlyOverflows n)
