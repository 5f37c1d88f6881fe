-- ===== src/Python/Date/Ordinal.antt =====
-- Days are numbered without gaps.
use cs_server.Prelude.{
  ℕ, zero, suc, ◌+◌, ◌≤◌, ◌<◌, Bool, ◌≡◌, refl, subst, true, false, arith, some, ◌⊎◌, inl, inr,
  if◌then◌else◌,
}
use cs_server.Python.Except.{Error, Result, ok, raised, and_then, Result-cases}
use cs_server.Python.Date.{
  Date, on, is_leap, days_in_month, make_date, next_in_month, next_day, add_days, ordinal,
  days_before_year, days_before_month, month_length,
}

pub record IsDate (t : Date) : Type 0 where
  pub year_from : 1 ≤ t.year
  pub year_to : t.year ≤ 9999
  pub month_from : 1 ≤ t.month
  pub month_to : t.month ≤ 12
  pub day_from : 1 ≤ t.day
  pub day_to : t.day ≤ days_in_month t.year t.month

pub make_date-IsDate : (y m d : ℕ) (t : Date) → make_date y m d ≡ some t → IsDate t × (t ≡ on y m d)
unfolding make_date
make_date-IsDate y m d t h = ground arith

year_length :
    (y : ℕ)
    → 1 ≤ y
    → days_before_year (y + 1) ≡ days_before_year y + (if is_leap y then 366 else 365)
unfolding is_leap days_before_year
year_length y h = ground arith

month_step :
    (leap : Bool) (m : ℕ)
    → 1 ≤ m
    → m < 12
    → days_before_month leap (m + 1) ≡ days_before_month leap m + month_length leap m
unfolding days_before_month month_length
month_step true m l h = ground arith
month_step false m l h = ground arith

year_step :
    (leap : Bool) → days_before_month leap 12 + month_length leap 12 ≡ (if leap then 366 else 365)
unfolding days_before_month month_length
year_step true = refl
year_step false = refl

first_month : (leap : Bool) → days_before_month leap 1 ≡ 0
unfolding days_before_month
first_month true = refl
first_month false = refl

ordinal_on :
    (t : Date)
    → ordinal t ≡ days_before_year t.year + days_before_month (is_leap t.year) t.month + t.day
unfolding ordinal
ordinal_on t = refl

next_in_month-cases :
    (n : ℕ) (t u : Date)
    → next_in_month n t ≡ ok u
    → ((t.day < n) × (u ≡ on t.year t.month (t.day + 1)))
      ⊎ (((n ≤ t.day) × ((t.month < 12) × (u ≡ on t.year (t.month + 1) 1)))
          ⊎ ((n ≤ t.day) × ((12 ≤ t.month) × ((t.year < 9999) × (u ≡ on (t.year + 1) 1 1)))))
unfolding next_in_month
next_in_month-cases n t u h = ground arith

next_day-ordinal : (t u : Date) → IsDate t → next_day t ≡ ok u → ordinal u ≡ ordinal t + 1
next_day-ordinal t u h e = elim (next_in_month-cases _ t u e) as (λ _. ordinal u ≡ ordinal t + 1) [
  | inl (l, p) ↦ rw (p, ordinal_on t, ordinal_on (on t.year t.month (t.day + 1))) (omega arith)
  | inr (inl (g, (l, p))) ↦
      rw (p, ordinal_on t, ordinal_on (on t.year (t.month + 1) 1))
        (omega (arith, h.day_to, g, month_step (is_leap t.year) t.month h.month_from l))
  | inr (inr (g, (l, (y, p)))) ↦
      let december : t.month ≡ 12 = omega (arith, h.month_to) in
      let full : t.day ≡ month_length (is_leap t.year) 12 =
        rw (← december) (omega (arith, g, h.day_to)) in
      rw (p, ordinal_on t, ordinal_on (on (t.year + 1) 1 1), december, full)
        (omega (
          arith,
          year_length t.year h.year_from,
          year_step (is_leap t.year),
          first_month (is_leap (t.year + 1)),
        ))
]

month_length_pos : (leap : Bool) (m : ℕ) → 1 ≤ month_length leap m
unfolding month_length
month_length_pos true m = ground arith
month_length_pos false m = ground arith

next_day-IsDate : (t u : Date) → IsDate t → next_day t ≡ ok u → IsDate u
unfolding next_in_month
next_day-IsDate t u h e = ground (arith, month_length_pos (is_leap u.year) u.month)

and_then-ok :
    (r : Result Date) (f : Date → Result Date) (u : Date)
    → and_then r f ≡ ok u
    → (x : Date) × ((r ≡ ok x) × (f x ≡ ok u))
and_then-ok (ok x) f u h = (x, (refl, h))
and_then-ok (raised e) f u h = ground arith

-- Some days after a date there is a date again, that many days on.
pub add_days-ordinal :
    (n : ℕ) (t u : Date) → IsDate t → add_days n t ≡ ok u → IsDate u × (ordinal u ≡ ordinal t + n)
unfolding add_days
add_days-ordinal zero t u v e = ground arith
add_days-ordinal (suc n) t u v e =
    let (x, (h, g)) = and_then-ok (next_day t) (add_days n) u e in
    let ih = add_days-ordinal n x u (next_day-IsDate t x v h) g in
    (ih.0, omega (arith, ih.1, next_day-ordinal t x v h))

-- The number of 9999-12-31.
abbrev pub max_ordinal : ℕ
max_ordinal = 3652059

next_in_month-ends :
    (n : ℕ) (t : Date) (e : Error)
    → next_in_month n t ≡ raised e
    → (n ≤ t.day) × ((12 ≤ t.month) × (9999 ≤ t.year))
unfolding next_in_month
next_in_month-ends n t e h = ground arith

last_day : (t : Date) → t.year ≡ 9999 → t.month ≡ 12 → 31 ≤ t.day → max_ordinal ≤ ordinal t
unfolding ordinal
last_day t y m d = rw (y, m) (omega arith)

next_day-last : (t : Date) → IsDate t → ordinal t < max_ordinal → (x : Date) × (next_day t ≡ ok x)
unfolding month_length
next_day-last t v l = elim (Result-cases (next_day t)) [
  | inl a ↦ a
  | inr (e, h) ↦
      let end = next_in_month-ends _ t e h in
      let december : t.month ≡ 12 = omega (arith, v.month_to, end) in
      let full : 31 ≤ t.day = subst (λ m. month_length (is_leap t.year) m ≤ t.day) december end.0 in
      let past = last_day t (omega (arith, v.year_to, end)) december full in ground (arith, l, past)
]

-- Up to 9999-12-31 no addition of days raises.
pub add_days_total :
    (n : ℕ) (t : Date) → IsDate t → ordinal t + n ≤ max_ordinal → (u : Date) × (add_days n t ≡ ok u)
unfolding add_days
add_days_total zero t v l = (t, refl)
add_days_total (suc n) t v l =
    let (x, h) = next_day-last t v (omega arith) in
    rw h (add_days_total n x (next_day-IsDate t x v h) (omega (arith, next_day-ordinal t x v h)))
