-- ===== src/Dates/Weekday.antt =====
-- The next day of the week at or after a date.
use cs_server.Prelude.{ℕ, ◌+◌, ◌-◌, ◌%◌, ◌≤◌, ◌<◌, ◌≡◌, refl, sym, ◌∙◌, arith}
use cs_server.Python.Except.{ok, Holds}
use cs_server.Python.Date.{Date, ordinal, weekday}
use cs_server.Python.Date.Ordinal.{IsDate, add_days-ordinal, add_days_total, max_ordinal}
use cs_server.Dates.Resolve.{next_weekday_on_or_after}

weekday-ordinal : (t : Date) → weekday t ≡ (ordinal t + 6) % 7
unfolding weekday
weekday-ordinal t = refl

shift_weekday :
    (a o w : ℕ)
    → w < 7
    → a ≡ (o + 6) % 7
    → ((w + 7 - a) % 7 ≤ 6) × ((o + (w + 7 - a) % 7 + 6) % 7 ≡ w)
shift_weekday a o w h e = (omega arith, omega arith)

-- The weekday `w`, not before the anchor and within the six days after it.
pub record IsNext (anchor : Date) (w : ℕ) (t : Date) : Type 0 where
  pub real : IsDate t
  pub named : weekday t ≡ w
  pub from : ordinal anchor ≤ ordinal t
  pub to : ordinal t ≤ ordinal anchor + 6

pub next_weekday_on_or_after-IsNext :
    (anchor : Date) (w : ℕ)
    → IsDate anchor
    → w < 7
    → Holds (IsNext anchor w) (next_weekday_on_or_after anchor w)
unfolding next_weekday_on_or_after
next_weekday_on_or_after-IsNext anchor w v l = record {
  of_value = λ t e.
      let (real, moved) = add_days-ordinal ((w + 7 - weekday anchor) % 7) anchor t v e in
      let (short, hit) =
        shift_weekday (weekday anchor) (ordinal anchor) w l (weekday-ordinal anchor) in
      record {
        real = real;
        named = rw (weekday-ordinal t, moved) hit;
        from = rw moved (omega arith);
        to = rw moved (omega arith);
      };
}

same_weekday : (a o w p : ℕ) → a ≡ (o + 6) % 7 → (p + 6) % 7 ≡ w → o ≤ p → o + (w + 7 - a) % 7 ≤ p
same_weekday a o w p e h l = omega arith

-- From a real date up to a week before the end of the calendar, for a weekday w of 0 to 6: a date is
-- returned, it falls on that weekday, and of all dates on that weekday that are not before the anchor it
-- is the first; it is at most six days away.
pub next_weekday_on_or_after_exact :
    (anchor : Date) (w : ℕ)
    → IsDate anchor
    → w < 7
    → ordinal anchor + 7 ≤ max_ordinal
    → (t : Date) × ((next_weekday_on_or_after anchor w ≡ ok t)
        × (IsNext anchor w t
            × ((s : Date) → weekday s ≡ w → ordinal anchor ≤ ordinal s → ordinal t ≤ ordinal s)))
unfolding next_weekday_on_or_after
next_weekday_on_or_after_exact anchor w v l room =
    let o = ordinal anchor in
    let a = weekday anchor in
    let near = shift_weekday a o w l (weekday-ordinal anchor) in
    let (t, e) = add_days_total ((w + 7 - a) % 7) anchor v (omega (arith, near.0, room)) in
    let moved = add_days-ordinal ((w + 7 - a) % 7) anchor t v e in
    (
      t,
      (
        e,
        (
          (next_weekday_on_or_after-IsNext anchor w v l).of_value t e,
          λ s h from. rw (moved.1) (
              same_weekday a o w (ordinal s) (weekday-ordinal anchor) (sym (weekday-ordinal s) ∙ h)
                from),
        ),
      ),
    )
