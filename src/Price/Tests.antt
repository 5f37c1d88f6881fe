-- ===== src/Price/Tests.antt =====
-- The price theorems at concrete inputs, and runs of the derivation.
use cs_server.Prelude.{◌≡◌, refl, ◌↔◌, none, some, [], ◌∷◌, arith}
use cs_server.Prelude.Int.{pos}
use cs_server.Price.{
  PriceRange, Thresholds, google_range, bucket_price_range, derive_price_signal, normalize_besttime,
  price_level_from_enum, cuts_of, statistic, first_tier,
}
use cs_server.Price.Tiers.{IsServed, derive_price_signal-IsServed}

abbrev reais : Thresholds
reais = ("BRL", 40 ∷ 80 ∷ 140 ∷ []) ∷ []

abbrev dinner : PriceRange
dinner = record { currency = some "BRL"; min = some 60; max = some 100 }

-- The midpoint 80 is not below the second cut.
dinner_run : bucket_price_range (some dinner) reais ≡ some (pos 3)
unfolding bucket_price_range cuts_of statistic first_tier
dinner_run = refl

range_first :
    derive_price_signal (some "PRICE_LEVEL_INEXPENSIVE") (some dinner) (some (pos 1)) reais
    ≡ record { price_level = some (pos 3); source = some google_range }
unfolding derive_price_signal bucket_price_range cuts_of statistic first_tier
range_first = refl

zero_is_none :
    derive_price_signal none none (some (pos 0)) reais
    ≡ record { price_level = none; source = none }
unfolding derive_price_signal bucket_price_range price_level_from_enum normalize_besttime
zero_is_none = refl

derive_price_signal-IsServed_example :
    let s = derive_price_signal none (some dinner) (some (pos 9)) reais in
    IsServed s.price_level × ((s.source ≡ none) ↔ (s.price_level ≡ none))
derive_price_signal-IsServed_example =
    derive_price_signal-IsServed none (some dinner) (some (pos 9)) reais (omega arith, tt)
