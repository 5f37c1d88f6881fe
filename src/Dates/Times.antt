-- ===== src/Dates/Times.antt =====
-- The times that a text states.
use cs_server.Prelude.{
  ℕ, ◌≡◌, refl, ◌≤◌, inl, inr, Bool, true, false, not, ◌&&◌, ◌||◌, Option, none, some, List, [],
  ◌∷◌, Bool-cases, arith, leb, if◌then◌else◌,
}
use cs_server.Python.Regex.{Text, Unicode, strip, finditer}
use cs_server.Dates.Patterns.{Token, time_token}
use cs_server.Python.Text.{is_empty}
use cs_server.Dates.Resolve.{
  Time, token_hour, token_minute, times_of, find_time_tokens, start_and_end, parse_time_text,
}

abbrev pub IsTime : Time → Type 0
IsTime t = (t.0 ≤ 23) × (t.1 ≤ 59)

abbrev AllTimes : List Time → Type 0
AllTimes [] = Unit
AllTimes (t ∷ ts) = IsTime t × AllTimes ts

abbrev pub OptTime : Option Time → Type 0
OptTime none = Unit
OptTime (some t) = IsTime t

-- Times of the clock, and no end without a start.
pub record IsSpan (t : Option Time × Option Time) : Type 0 where
  pub start : OptTime t.0
  pub end : OptTime t.1
  pub ordered : t.0 ≡ none → t.1 ≡ none

keep_if :
    (h m : ℕ) (gone : Bool) (more : List Time)
    → AllTimes more
    → AllTimes (if gone || not (leb h 23 && leb m 59) then more else (h, m) ∷ more)
keep_if h m true more a = a
keep_if h m false more a = elim (Bool-cases (leb h 23 && leb m 59)) [
  | inl b ↦ rw b ((ground arith, ground arith), a)
  | inr b ↦ rw b a
]

module _ (u : Unicode) where
  times_of-AllTimes : (gs : List Token) → AllTimes (times_of u gs)
  unfolding times_of
  times_of-AllTimes [] = tt
  times_of-AllTimes (g ∷ gs) =
      keep_if (token_hour u g) (token_minute u g) (is_empty (strip u g.whole)) (times_of u gs)
        (times_of-AllTimes gs)

  start_and_end-IsSpan : (ts : List Time) → AllTimes ts → IsSpan (start_and_end u ts)
  start_and_end-IsSpan [] h = record { start = tt; end = tt; ordered = λ e. refl }
  start_and_end-IsSpan (a ∷ []) h = record { start = h.0; end = tt; ordered = λ e. refl }
  start_and_end-IsSpan (a ∷ b ∷ rest) h = record {
    start = h.0;
    end = h.1.0;
    ordered = λ e. absurd (cc);
  }

  pub parse_time_text-IsSpan : (t : Option Text) → IsSpan (parse_time_text u t)
  unfolding parse_time_text find_time_tokens
  parse_time_text-IsSpan none = record { start = tt; end = tt; ordered = λ e. refl }
  parse_time_text-IsSpan (some t) = elim (Bool-cases (is_empty t || is_empty (strip u t))) [
    | inl b ↦ rw b (record { start = tt; end = tt; ordered = λ e. refl })
    | inr b ↦ rw b (start_and_end-IsSpan _ (times_of-AllTimes (finditer (time_token u) t)))
  ]
