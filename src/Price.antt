-- ===== src/Price.antt =====
-- app/services/price_signal.py: the served price tier. Amounts and thresholds are numbers on one
-- scale; a statistic is kept at twice that scale, so that a midpoint needs no division.
pub mod Tiers
mod Tests
use cs_server.Prelude.{
  ℕ, suc, ◌+◌, ◌*◌, String, Bool, Option, none, some, List, [], ◌∷◌, ltb, str_eq, if◌then◌else◌,
  ◌&&◌, length,
}
use cs_server.Prelude.Int.{ℤ, pos, negsuc, leb_ℤ}

-- `PriceRange`; an empty currency counts as none.
pub record PriceRange : Type 0 where
  pub currency : Option String
  pub min : Option ℕ
  pub max : Option ℕ

pub data Source : Type 0 where
  google_enum google_range besttime : Source

pub record PriceSignal : Type 0 where
  pub price_level : Option ℤ
  pub source : Option Source

-- The cut points of each currency.
abbrev pub Thresholds : Type 0
Thresholds = List (String × List ℕ)

abbrev is_zero : ℤ → Bool
is_zero v = leb_ℤ v (pos 0) && leb_ℤ (pos 0) v

-- Zero stands for no level.
unfoldable normalize_legacy_price_level : Option ℤ → Option ℤ
normalize_legacy_price_level none = none
normalize_legacy_price_level (some v) = if is_zero v then none else some v

-- `PRICE_LEVEL_ENUM_TO_INT`; a missing or empty name, and any other, has no tier.
unfoldable pub price_level_from_enum : Option String → Option ℤ
price_level_from_enum none = none
price_level_from_enum (some e) =
    if str_eq e "PRICE_LEVEL_INEXPENSIVE"
    then some (pos 1)
    else (if str_eq e "PRICE_LEVEL_MODERATE"
        then some (pos 2)
        else (if str_eq e "PRICE_LEVEL_EXPENSIVE"
            then some (pos 3)
            else (if str_eq e "PRICE_LEVEL_VERY_EXPENSIVE" then some (pos 4) else none)))

unfoldable pub normalize_besttime : Option ℤ → Option ℤ
normalize_besttime none = none
normalize_besttime (some v) = if leb_ℤ (pos 1) v && leb_ℤ v (pos 4) then some v else none

-- `thresholds.get(currency)`
unfoldable pub cuts_of : String → Thresholds → List ℕ
cuts_of c [] = []
cuts_of c ((d, cuts) ∷ rest) = if str_eq d c then cuts else cuts_of c rest

-- Twice the statistic of a range: the midpoint, or the one bound that is there.
unfoldable pub statistic : Option ℕ → Option ℕ → Option ℕ
statistic none none = none
statistic none (some hi) = some (2 * hi)
statistic (some lo) none = some (2 * lo)
statistic (some lo) (some hi) = some (lo + hi)

-- The first tier whose cut lies above the statistic, else one past the last.
unfoldable pub first_tier : ℕ → ℕ → List ℕ → ℕ
first_tier tier stat [] = tier
first_tier tier stat (cut ∷ cuts) =
    let rest = first_tier (suc tier) stat cuts in if ltb stat (2 * cut) then tier else rest

abbrev pub bucket : List ℕ → Option ℕ → Option ℤ
bucket [] stat = none
bucket (cut ∷ cuts) none = none
bucket (cut ∷ cuts) (some stat) = some (pos (first_tier 1 stat (cut ∷ cuts)))

abbrev pub bucket_in : Option String → Option ℕ → Option ℕ → Thresholds → Option ℤ
bucket_in none lo hi thresholds = none
bucket_in (some c) lo hi thresholds =
    if str_eq c "" then none else bucket (cuts_of c thresholds) (statistic lo hi)

unfoldable pub bucket_price_range : Option PriceRange → Thresholds → Option ℤ
bucket_price_range none thresholds = none
bucket_price_range (some r) thresholds = bucket_in r.currency r.min r.max thresholds

-- The first signal that gives a tier.
abbrev pub first_signal : List (Option ℤ × Source) → PriceSignal
first_signal [] = record { price_level = none; source = none }
first_signal ((none, s) ∷ rest) = first_signal rest
first_signal ((some t, s) ∷ rest) = record { price_level = some t; source = some s }

unfoldable pub derive_price_signal :
    Option String → Option PriceRange → Option ℤ → Thresholds → PriceSignal
derive_price_signal enum range price thresholds = first_signal (
    (bucket_price_range range thresholds, google_range)
    ∷ (price_level_from_enum enum, google_enum)
    ∷ (normalize_besttime price, besttime)
    ∷ [])
