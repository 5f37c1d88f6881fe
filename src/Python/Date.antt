-- ===== src/Python/Date.antt =====
-- `datetime.date` as far as the code uses it: a date is a year from 1 to 9999, a month and a day; the
-- constructor refuses anything else, `+ timedelta(days=n)` raises past the last date, and comparison
-- is by fields.
pub mod Ordinal
use cs_server.Prelude.{
  ℕ, zero, suc, ◌+◌, ◌-◌, ◌*◌, ◌/◌, ◌%◌, Bool, true, not, ◌&&◌, ◌||◌, Option, none, some, ◌==◌, leb,
  ltb, if◌then◌else◌,
}
use cs_server.Python.Except.{Result, ok, raised, and_then, overflow_error}

pub record Date : Type 0 where
  pub year : ℕ
  pub month : ℕ
  pub day : ℕ

abbrev pub on : ℕ → ℕ → ℕ → Date
on y m d = record { year = y; month = m; day = d }

unfoldable pub is_leap : ℕ → Bool
is_leap y = y % 4 == 0 && (not (y % 100 == 0) || y % 400 == 0)

-- The days of a month, in a leap year or not.
unfoldable pub month_length : Bool → ℕ → ℕ
month_length leap m =
    if m == 2
    then (if leap then 29 else 28)
    else (if m == 4 || m == 6 || m == 9 || m == 11 then 30 else 31)

abbrev pub days_in_month : ℕ → ℕ → ℕ
days_in_month y m = month_length (is_leap y) m

-- `date(year, month, day)`, `none` where it raises ValueError.
unfoldable pub make_date : ℕ → ℕ → ℕ → Option Date
unfolding is_leap month_length
make_date y m d =
    if leb 1 y && leb y 9999 && leb 1 m && leb m 12 && leb 1 d && leb d (days_in_month y m)
    then some (on y m d)
    else none

-- The day after one in a month of `length` days.
unfoldable pub next_in_month : ℕ → Date → Result Date
next_in_month length t =
    if ltb t.day length
    then ok (on t.year t.month (t.day + 1))
    else (if ltb t.month 12
        then ok (on t.year (t.month + 1) 1)
        else (if ltb t.year 9999 then ok (on (t.year + 1) 1 1) else raised overflow_error))

abbrev pub next_day : Date → Result Date
next_day t = next_in_month (days_in_month t.year t.month) t

-- `t + timedelta(days=n)`
unfoldable pub add_days : ℕ → Date → Result Date
unfolding is_leap next_in_month month_length
add_days zero t = ok t
add_days (suc n) t = and_then (next_day t) (add_days n)

unfoldable pub days_before_year : ℕ → ℕ
days_before_year y = let p = y - 1 in p * 365 + p / 4 - p / 100 + p / 400

-- The days of a year before a month.
unfoldable pub days_before_month : Bool → ℕ → ℕ
days_before_month leap m =
    (if leap && ltb 2 m then 1 else 0)
    + (if leb m 1
        then 0
        else (if leb m 2
            then 31
            else (if leb m 3
                then 59
                else (if leb m 4
                    then 90
                    else (if leb m 5
                        then 120
                        else (if leb m 6
                            then 151
                            else (if leb m 7
                                then 181
                                else (if leb m 8
                                    then 212
                                    else (if leb m 9
                                        then 243
                                        else (if leb m 10
                                            then 273
                                            else (if leb m 11 then 304 else 334)))))))))))

-- `toordinal`, the number of days with 0001-01-01 as day 1.
unfoldable pub ordinal : Date → ℕ
unfolding is_leap days_before_year days_before_month
ordinal t = days_before_year t.year + days_before_month (is_leap t.year) t.month + t.day

-- Monday is 0.
unfoldable pub weekday : Date → ℕ
unfolding ordinal
weekday t = (ordinal t + 6) % 7

-- `a <= b`
abbrev pub date_le : Date → Date → Bool
date_le a b =
    ltb a.year b.year
    || a.year == b.year && (ltb a.month b.month || a.month == b.month && leb a.day b.day)
