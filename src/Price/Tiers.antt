-- ===== src/Price/Tiers.antt =====
-- What the served tier promises.
use cs_server.Prelude.{
  ℕ, suc, ◌+◌, ◌≤◌, String, ◌≡◌, refl, inl, inr, Option, none, some, List, [], ◌∷◌, arith, str_eq,
  if◌then◌else◌, length, Bool-cases, Bool, true, false, ◌&&◌, ◌↔◌,
}
use cs_server.Prelude.Int.{ℤ, pos, ◌≤ℤ◌, leb_ℤ}
use cs_server.Price.{
  PriceRange, Thresholds, google_enum, google_range, besttime, price_level_from_enum,
  normalize_besttime, bucket, bucket_in, first_signal, cuts_of, statistic, first_tier,
  bucket_price_range, derive_price_signal,
}

-- A served level: none, or one from 1 to 4.
abbrev pub IsServed : Option ℤ → Type 0
IsServed none = Unit
IsServed (some t) = (pos 1 ≤ℤ t) × (t ≤ℤ pos 4)

-- Each currency has at most three cut points.
abbrev HasThreeCuts : Thresholds → Type 0
HasThreeCuts [] = Unit
HasThreeCuts ((c, cuts) ∷ rest) = (length cuts ≤ 3) × HasThreeCuts rest

first_tier_bounds :
    (tier stat : ℕ) (cuts : List ℕ)
    → (tier ≤ first_tier tier stat cuts) × (first_tier tier stat cuts ≤ tier + length cuts)
unfolding first_tier
first_tier_bounds tier stat [] = (omega arith, omega arith)
first_tier_bounds tier stat (cut ∷ cuts) = ground (arith, first_tier_bounds (suc tier) stat cuts)

cuts_of-short : (c : String) (t : Thresholds) → HasThreeCuts t → length (cuts_of c t) ≤ 3
unfolding cuts_of
cuts_of-short c [] h = omega arith
cuts_of-short c ((d, cuts) ∷ rest) h = ground (arith, cuts_of-short c rest)

bucket-IsServed : (cuts : List ℕ) (stat : Option ℕ) → length cuts ≤ 3 → IsServed (bucket cuts stat)
bucket-IsServed [] stat h = tt
bucket-IsServed (cut ∷ cuts) none h = tt
bucket-IsServed (cut ∷ cuts) (some stat) h = omega (arith, first_tier_bounds 1 stat (cut ∷ cuts))

bucket_in-IsServed :
    (c : Option String) (lo hi : Option ℕ) (t : Thresholds)
    → HasThreeCuts t
    → IsServed (bucket_in c lo hi t)
bucket_in-IsServed none lo hi t h = tt
bucket_in-IsServed (some c) lo hi t h = elim (Bool-cases (str_eq c "")) [
  | inl empty ↦ rw empty tt
  | inr named ↦ rw named (bucket-IsServed (cuts_of c t) (statistic lo hi) (cuts_of-short c t h))
]

bucket_price_range-IsServed :
    (r : Option PriceRange) (t : Thresholds) → HasThreeCuts t → IsServed (bucket_price_range r t)
unfolding bucket_price_range
bucket_price_range-IsServed none t h = tt
bucket_price_range-IsServed (some r) t h = bucket_in-IsServed r.currency r.min r.max t h

IsServed-if :
    (b : Bool) (t : ℤ) → (b ≡ true → IsServed (some t)) → IsServed (if b then some t else none)
IsServed-if true t h = h refl
IsServed-if false t h = tt

either : (b : Bool) (x y : Option ℤ) → IsServed x → IsServed y → IsServed (if b then x else y)
either true x y h k = h
either false x y h k = k

price_level_from_enum-IsServed : (e : Option String) → IsServed (price_level_from_enum e)
unfolding price_level_from_enum
price_level_from_enum-IsServed none = tt
price_level_from_enum-IsServed (some e) =
    either (str_eq e "PRICE_LEVEL_INEXPENSIVE") (some (pos 1)) _ (omega arith) (
      either (str_eq e "PRICE_LEVEL_MODERATE") (some (pos 2)) _ (omega arith) (
        either (str_eq e "PRICE_LEVEL_EXPENSIVE") (some (pos 3)) _ (omega arith)
          (either (str_eq e "PRICE_LEVEL_VERY_EXPENSIVE") (some (pos 4)) none (omega arith) tt)))

normalize_besttime-IsServed : (v : Option ℤ) → IsServed (normalize_besttime v)
unfolding normalize_besttime
normalize_besttime-IsServed none = tt
normalize_besttime-IsServed (some v) =
    IsServed-if (leb_ℤ (pos 1) v && leb_ℤ v (pos 4)) v (λ h. ground arith)

-- The first of three signals that gives a tier, and nothing but that.
first_of :
    (a b c : Option ℤ)
    → IsServed a
    → IsServed b
    → IsServed c
    → let s = first_signal ((a, google_range) ∷ (b, google_enum) ∷ (c, besttime) ∷ []) in
      IsServed s.price_level × ((s.source ≡ none) ↔ (s.price_level ≡ none))
first_of (some a) b c ha hb hc = (ha, ((λ h. cc), (λ h. cc)))
first_of none (some b) c ha hb hc = (hb, ((λ h. cc), (λ h. cc)))
first_of none none (some c) ha hb hc = (hc, ((λ h. cc), (λ h. cc)))
first_of none none none ha hb hc = (tt, ((λ h. refl), (λ h. refl)))

-- With at most three cut points for each currency the served level is none or one of 1 to 4, so it is
-- never 0, and a source is recorded exactly where a level is.
pub derive_price_signal-IsServed :
    (e : Option String) (r : Option PriceRange) (price : Option ℤ) (t : Thresholds)
    → HasThreeCuts t
    → let s = derive_price_signal e r price t in
      IsServed s.price_level × ((s.source ≡ none) ↔ (s.price_level ≡ none))
unfolding derive_price_signal
derive_price_signal-IsServed e r price t h =
    first_of (bucket_price_range r t) (price_level_from_enum e) (normalize_besttime price)
      (bucket_price_range-IsServed r t h) (price_level_from_enum-IsServed e)
      (normalize_besttime-IsServed price)

first_tier_mono :
    (tier low high : ℕ) (cuts : List ℕ)
    → low ≤ high
    → first_tier tier low cuts ≤ first_tier tier high cuts
unfolding first_tier
first_tier_mono tier low high [] h = omega arith
first_tier_mono tier low high (cut ∷ cuts) h =
    ground
      (arith, first_tier_mono (suc tier) low high cuts h, first_tier_bounds (suc tier) high cuts)

-- No level at all, or a level that is not above the other.
abbrev NotAbove : Option ℤ → Option ℤ → Type 0
NotAbove (some a) (some b) = a ≤ℤ b
NotAbove none none = Unit
NotAbove _ _ = ⊥

-- Of two ranges in one currency whose bounds are no lower in the second, the second gets no lower tier;
-- whatever the cut points are, also unsorted.
bucket_price_range_mono :
    (c : Option String) (lo hi lo' hi' : ℕ) (t : Thresholds)
    → lo ≤ lo'
    → hi ≤ hi'
    → NotAbove
        (bucket_price_range (some (record { currency = c; min = some lo; max = some hi })) t)
        (bucket_price_range (some (record { currency = c; min = some lo'; max = some hi' })) t)
unfolding bucket_price_range statistic
bucket_price_range_mono none lo hi lo' hi' t h k = tt
bucket_price_range_mono (some c) lo hi lo' hi' t h k = elim (Bool-cases (str_eq c "")) [
  | inl empty ↦ rw empty tt
  | inr named ↦ rw named (above (cuts_of c t))
]
  where
    above :
        (cuts : List ℕ) → NotAbove (bucket cuts (some (lo + hi))) (bucket cuts (some (lo' + hi')))
    above [] = tt
    above (cut ∷ cuts) =
        omega (arith, first_tier_mono 1 (lo + hi) (lo' + hi') (cut ∷ cuts) (omega arith))
