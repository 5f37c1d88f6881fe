-- ===== src/Events/Identity/Payload.antt =====
-- What the hashed payload of an event determines.
use cs_server.Prelude.{ℕ, ◌≡◌, refl, ◌≢◌, List, [], ◌∷◌, ◌++◌, ap, sym, Option, none, some, ◌↔◌}
use cs_server.Events.Row.{Value}
use cs_server.Events.Identity.{
  TextTables, bar, payload, normalize_title, date_part, day_of, compute_source_event_key,
}

-- No `|` in a list of code points.
abbrev pub NoBar : List ℕ → Type 0
NoBar [] = Unit
NoBar (c ∷ cs) = (c ≢ bar) × NoBar cs

bar_absent : (xs ys : List ℕ) (ds : List ℕ) → ds ≡ xs ++ bar ∷ ys → NoBar ds → ⊥
bar_absent [] ys [] h n = cc
bar_absent (x ∷ xs) ys [] h n = cc
bar_absent [] ys (d ∷ ds) h n = n.0 (cc)
bar_absent (x ∷ xs) ys (d ∷ ds) h n = bar_absent xs ys ds (cc) n.1

-- The part behind the last bar is determined.
split_at_bar :
    (xs ys ds es : List ℕ)
    → xs ++ bar ∷ ds ≡ ys ++ bar ∷ es
    → NoBar ds
    → NoBar es
    → (xs ≡ ys) × (ds ≡ es)
split_at_bar [] [] ds es h n m = (refl, cc)
split_at_bar [] (y ∷ ys) ds es h n m = absurd (bar_absent ys es ds (cc) n)
split_at_bar (x ∷ xs) [] ds es h n m = absurd (bar_absent xs ds es (cc) m)
split_at_bar (x ∷ xs) (y ∷ ys) ds es h n m =
    let (e, d) = split_at_bar xs ys ds es (cc) n m in (cc, d)

-- Python's ISO dates hold no `|` and tell two days apart.
pub record DateText (u : TextTables) : Type 0 where
  pub no_bar : (day : ℕ) → NoBar (u.isoformat day)
  pub injective : (d e : ℕ) → u.isoformat d ≡ u.isoformat e → d ≡ e
  pub nonempty : (d : ℕ) → u.isoformat d ≢ []

module _ (u : TextTables) (dates : DateText u) where
  date_part-NoBar : (d : Option ℕ) → NoBar (date_part u d)
  date_part-NoBar none = tt
  date_part-NoBar (some d) = dates.no_bar d

  date_part-injective : (d e : Option ℕ) → date_part u d ≡ date_part u e → d ≡ e
  date_part-injective none none h = refl
  date_part-injective none (some e) h = absurd (dates.nonempty e (sym h))
  date_part-injective (some d) none h = absurd (dates.nonempty d h)
  date_part-injective (some d) (some e) h = ap some (dates.injective d e h)

-- Where the digest does not collide on the two payloads, and the texts of dates are not empty, hold
-- no bar and differ for different days, two events have the same key exactly when their titles
-- normalise alike and their starts fall on the same calendar day or are both unknown: the clock
-- time plays no part.
pub compute_source_event_key-eq :
    (u : TextTables) (t t' s s' : Value)
    → DateText u
    → (u.digest (payload u t s) ≡ u.digest (payload u t' s') → payload u t s ≡ payload u t' s')
    → (compute_source_event_key u t s ≡ compute_source_event_key u t' s')
      ↔ ((normalize_title u t ≡ normalize_title u t') × (day_of s ≡ day_of s'))
unfolding compute_source_event_key payload
compute_source_event_key-eq u t t' s s' dates fresh = (
  λ h.
      let (e, d) =
        split_at_bar (normalize_title u t) (normalize_title u t') _ _ (fresh h)
          (date_part-NoBar u dates (day_of s)) (date_part-NoBar u dates (day_of s')) in
      (e, date_part-injective u dates _ _ d),
  λ h. cc (h.0, h.1),
)
