-- ===== src/Dates/Explicit.antt =====
-- What an explicit date resolves to.
use cs_server.Prelude.{
  ℕ, ◌+◌, ◌≡◌, refl, subst, ◌⊎◌, inl, inr, true, false, Option, none, some, Option-cases,
  Bool-cases, arith,
}
use cs_server.Python.Date.{Date, on, make_date, date_le}
use cs_server.Python.Date.Ordinal.{IsDate, make_date-IsDate}
use cs_server.Dates.Resolve.{resolved, found_date, roll_forward, without_year}

-- A day and a month without a year: the date in the anchor's year where that is not before the
-- anchor, and in the next year otherwise.
pub record IsForward (anchor : Date) (month day : ℕ) (t : Date) : Type 0 where
  pub real : IsDate t
  pub not_before : date_le anchor t ≡ true
  pub as_stated : (t.month ≡ month) × (t.day ≡ day)
  pub year_of :
      (t.year ≡ anchor.year)
      ⊎ ((t.year ≡ anchor.year + 1) × (date_le anchor (on anchor.year month day) ≡ false))

earlier_year : (a t : Date) (m d : ℕ) → t ≡ on (a.year + 1) m d → date_le a t ≡ true
earlier_year a t m d e = rw e (ground arith)

roll_forward-some :
    (c anchor : Date) (y month day : ℕ) (t : Date)
    → roll_forward c anchor y month day ≡ some t
    → ((date_le anchor c ≡ true) × (t ≡ c))
      ⊎ ((date_le anchor c ≡ false) × (make_date (y + 1) month day ≡ some t))
unfolding roll_forward
roll_forward-some c anchor y month day t h = elim (Bool-cases (date_le anchor c)) [
  | inl b ↦ inl (b, cc (rw b at h))
  | inr b ↦ inr (b, rw b at h)
]

roll-IsForward :
    (anchor : Date) (month day : ℕ) (c t : Date)
    → make_date anchor.year month day ≡ some c
    → roll_forward c anchor anchor.year month day ≡ some t
    → IsForward anchor month day t
roll-IsForward anchor month day c t e h =
    let (real, at) = make_date-IsDate anchor.year month day c e in
    elim (roll_forward-some c anchor anchor.year month day t h) [
      | inl (b, q) ↦ record {
        real = rw q real;
        not_before = rw q b;
        as_stated = (rw (q, at) refl, rw (q, at) refl);
        year_of = inl (rw (q, at) refl);
      }
      | inr (b, q) ↦
          let (later, there) = make_date-IsDate (anchor.year + 1) month day t q in
          record {
            real = later;
            not_before = earlier_year anchor t month day there;
            as_stated = (rw there refl, rw there refl);
            year_of = inr (rw there refl, subst (λ x. date_le anchor x ≡ false) at b);
          }
    ]

pub found_date-some : (o : Option Date) (t : Date) → found_date o ≡ resolved t → o ≡ some t
found_date-some none t h = absurd (cc)
found_date-some (some c) t h = cc

-- Where an explicit date without a year resolves, it is a real date with the day and the month stated,
-- not before the anchor, and in the year after the anchor's only where the day has passed in that year.
pub without_year-IsForward :
    (anchor : Date) (month day : ℕ) (t : Date)
    → without_year anchor month day ≡ resolved t
    → IsForward anchor month day t
unfolding without_year
without_year-IsForward anchor month day t h =
    elim (Option-cases (make_date anchor.year month day)) [
      | inl e ↦ absurd (cc (rw e at h))
      | inr (c, e) ↦ roll-IsForward anchor month day c t e (found_date-some _ t (rw e at h))
    ]
