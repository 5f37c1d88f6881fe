-- ===== src/Dates/Sound.antt =====
-- Every date that the text gives is a real one, and the reasons that come with it.
use cs_server.Prelude.{
  ℕ, ◌≡◌, refl, ◌⊎◌, inl, inr, ◌<◌, String, Bool, true, Option, none, some, Option-cases,
  Bool-cases, ltb, ◌&&◌, [], ◌∷◌, arith, ◌==◌,
}
use cs_server.Python.Except.{Result, Holds, ok-Holds, and_then-Holds}
use cs_server.Python.Date.{Date, make_date, add_days, weekday}
use cs_server.Python.Date.Ordinal.{IsDate, make_date-IsDate, add_days-ordinal}
use cs_server.Python.Regex.{Text, Unicode, search, number, strip}
use cs_server.Dates.Patterns.{
  Table, weekdays, months, Numbers, Named, bare_numeral, weekday_pattern, numeric_date_pattern,
  textual_date_pattern, reversed_date_pattern,
}
use cs_server.Dates.Resolve.{
  Found, no_match, invalid, resolved, found_date, reason_weekday_mismatch, entry_of, numeric_of,
  named_of, first_of, next_weekday_on_or_after, without_year, numeric_date, textual_date,
  corroborate, no_reason, corroborate_with_weekday, resolve_weekday, resolve_pattern,
  resolve_explicit_date, weekday_of, weekday_alone, use_found, today_words, tomorrow_words,
}
use cs_server.Python.Text.{is_one_of}
use cs_server.Dates.Weekday.{next_weekday_on_or_after-IsNext}
use cs_server.Dates.Explicit.{without_year-IsForward, found_date-some}

-- A date that is given is real.
record IsReal (f : Found) : Type 0 where
  pub real : (t : Date) → f ≡ resolved t → IsDate t

-- No reason without a date, and only a weekday that disagrees with one.
abbrev pub Sound : Option Date × Option String → Type 0
Sound (none, why) = why ≡ none
Sound (some t, why) = IsDate t × ((why ≡ none) ⊎ (why ≡ some reason_weekday_mismatch))

all_below : ℕ → Table → Bool
all_below k [] = true
all_below k ((w, n) ∷ rest) = ltb n k && all_below k rest

entry_of-bound :
    (k : ℕ) (table : Table) (w : Text)
    → all_below k table ≡ true
    → Holds (λ n. n < k) (entry_of table w)
unfolding entry_of all_below
entry_of-bound k [] w h = record { of_value = λ n e. absurd (cc) }
entry_of-bound k ((x, m) ∷ rest) w h = record {
  of_value = λ n e. ground (arith, (entry_of-bound k rest w (ground arith)).of_value n);
}

pub weekday_of-bound : (u : Unicode) (w : Text) → Holds (λ n. n < 7) (weekday_of u w)
unfolding all_below
weekday_of-bound u w = entry_of-bound 7 weekdays (u.lower w) refl

found_date-IsReal : (y m d : ℕ) → IsReal (found_date (make_date y m d))
found_date-IsReal y m d = record {
  real = λ t h. (make_date-IsDate y m d t (found_date-some _ t h)).0;
}

module _ (u : Unicode) (anchor : Date) (v : IsDate anchor) where
  without_year-IsReal : (m d : ℕ) → IsReal (without_year anchor m d)
  without_year-IsReal m d = record { real = λ t h. (without_year-IsForward anchor m d t h).real }

  numeric_of-IsReal : (g : Option Numbers) → IsReal (numeric_of u g anchor)
  numeric_of-IsReal none = record { real = λ t h. absurd (cc) }
  numeric_of-IsReal (some g) = elim (Option-cases g.year) [
    | inl e ↦ rw e (without_year-IsReal (number u g.month) (number u g.day))
    | inr (y, e) ↦ rw e (found_date-IsReal _ (number u g.month) (number u g.day))
  ]

  named_of-IsReal : (g : Option Named) → Holds IsReal (named_of u g anchor)
  named_of-IsReal none = ok-Holds no_match (record { real = λ t h. absurd (cc) })
  named_of-IsReal (some g) =
      and_then-Holds {P = λ m. Unit} (entry_of months (u.lower g.month)) _
        (record { of_value = λ a e. tt })
        (λ m x. ok-Holds _ (without_year-IsReal m (number u g.day)))

  corroborate-Sound : (w : Option Text) (t : Date) → IsDate t → Holds Sound (corroborate u w t)
  corroborate-Sound none t d = ok-Holds _ (d, inl refl)
  corroborate-Sound (some w) t d = and_then-Holds (weekday_of u w) _ (weekday_of-bound u w) λ n l.
      elim (Bool-cases (weekday t == n)) [
        | inl b ↦ rw b (ok-Holds _ (d, inl refl))
        | inr b ↦ rw b (ok-Holds _ (d, inr refl))
      ]

  weekday_alone-Sound :
      (w : Option Text) (text : Text) → Holds Sound (weekday_alone u w text anchor)
  weekday_alone-Sound none text = ok-Holds _ refl
  weekday_alone-Sound (some w) text = elim (Option-cases (search (bare_numeral u) text)) [
    | inl e ↦
        rw (weekday_alone, e)
          (and_then-Holds (weekday_of u w) _ (weekday_of-bound u w) λ n l.
            and_then-Holds (next_weekday_on_or_after anchor n) _
              (next_weekday_on_or_after-IsNext anchor n v l)
              λ t next. ok-Holds _ (next.real, inl refl))
    | inr (x, e) ↦ rw (weekday_alone, e) (ok-Holds _ refl)
  ]

  use_found-Sound :
      (f : Found) (text : Text) (more : Result (Option Date × Option String))
      → IsReal f
      → Holds Sound more
      → Holds Sound (use_found u f text more)
  unfolding corroborate_with_weekday
  use_found-Sound no_match text more h g = g
  use_found-Sound invalid text more h g = ok-Holds _ refl
  use_found-Sound (resolved t) text more h g = corroborate-Sound _ t (h.real t refl)

  numeric_date-IsReal : (text : Text) → IsReal (numeric_date u text anchor)
  unfolding numeric_date
  numeric_date-IsReal text = numeric_of-IsReal (search (numeric_date_pattern u) text)

  textual_date-IsReal : (text : Text) → Holds IsReal (textual_date u text anchor)
  unfolding textual_date
  textual_date-IsReal text =
      named_of-IsReal
        (first_of u (search (textual_date_pattern u) text) (search (reversed_date_pattern u) text))

  resolve_weekday-Sound : (text : Text) → Holds Sound (resolve_weekday u text anchor)
  unfolding resolve_weekday
  resolve_weekday-Sound text = weekday_alone-Sound (search (weekday_pattern u) text) text

  resolve_pattern-Sound : (text : Text) → Holds Sound (resolve_pattern u text anchor)
  unfolding resolve_pattern
  resolve_pattern-Sound text =
      use_found-Sound (numeric_date u text anchor) text _ (numeric_date-IsReal text) (
        and_then-Holds (textual_date u text anchor) _ (textual_date-IsReal text)
          (λ f h. use_found-Sound f text _ h (resolve_weekday-Sound text)))

  tomorrow-Sound : Holds Sound (no_reason u (add_days 1 anchor))
  tomorrow-Sound =
      and_then-Holds {P = IsDate} (add_days 1 anchor) _
        (record { of_value = λ t e. (add_days-ordinal 1 anchor t v e).0 })
        (λ t real. ok-Holds _ (real, inl refl))

  pub resolve_explicit_date-Sound :
      (date_text : Text) → Holds Sound (resolve_explicit_date u date_text anchor)
  unfolding resolve_explicit_date
  resolve_explicit_date-Sound date_text =
      let text = u.lower (strip u date_text) in
      elim (Bool-cases (is_one_of text (today_words u))) [
        | inl a ↦ rw a (ok-Holds _ (v, inl refl))
        | inr a ↦ elim (Bool-cases (is_one_of text (tomorrow_words u))) [
          | inl b ↦ rw (a, b) tomorrow-Sound
          | inr b ↦ rw (a, b) (resolve_pattern-Sound text)
        ]
      ]
