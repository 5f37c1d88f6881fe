-- ===== src/Eligibility/Tests.antt =====
-- The eligibility theorems at concrete inputs, and runs of the policy.
use cs_server.Prelude.{◌^◌, String, ◌≡◌, refl, true, not, ◌&&◌, ◌||◌, none, some}
use cs_server.Eligibility.Categories.{google_to_category, besttime_to_category}
use cs_server.Eligibility.Category.{Case, lookup, resolve_category, representative_google_type}
use cs_server.Eligibility.Evaluate.{
  soft_deletable, refused, eligible_venue, low, high, ineligible_name_keyword,
  ineligible_besttime_type, begins, occurs, matches_keyword, has_good_category, evaluate,
}
use cs_server.Eligibility.Policy.{signals_of, evaluate_policy}
use cs_server.Eligibility.Correction.{IsCase, correction-IsServed}
use cs_server.Prelude.{[], ◌∷◌}
use cs_server.Prelude.Int.{pos}
use cs_server.Python.Except.{raised, value_error, ok, overflow_error}
use cs_server.Python.Json.{Json, int, decimal, str, arr, obj, nil, cons, end, field, get}
use cs_server.Events.Merge.{points_lt}
use cs_server.Eligibility.Capitals.{natal, recife}
use cs_server.Eligibility.Fence.{
  parsed, capital_of, circles_of, insert, sort, validate_geo_fence, load_geo_fence, too_large,
}
use cs_server.Eligibility.Fence.Valid.{Loaded, read_large, load_geo_fence-IsFence}

-- Texts that are trimmed and in their table's case already.
abbrev trimmed : Case
trimmed = record { strip = λ t. t; lower = λ t. t; upper = λ t. t }

trimmed-IsCase : IsCase trimmed
trimmed-IsCase = record { plain_strip = λ t h. refl; plain_lower = λ t h. refl }

-- An ambiguous name without a Google type is hidden and not deleted.
unlabeled_market :
    evaluate trimmed (some "bar do mercado") none none none ≡ refused ineligible_name_keyword low
unfolding evaluate matches_keyword occurs begins has_good_category resolve_category lookup
unlabeled_market = refl

-- The same name is fine for a bar.
bar_market : evaluate trimmed (some "bar do mercado") (some "BAR") none none ≡ eligible_venue
unfolding evaluate matches_keyword occurs begins has_good_category resolve_category lookup
bar_market = refl

-- A blocked BestTime type stands against the representative Google type too.
still_blocked :
    evaluate trimmed (some "boteco") (some "SHOPPING") (some "bar") none
    ≡ refused ineligible_besttime_type high
unfolding evaluate
still_blocked = refl

-- BestTime's type turns a restaurant into a bar.
restaurant_or_bar :
    resolve_category trimmed
      (some "restaurant")
      (some "BEER")
      google_to_category
      besttime_to_category
    ≡ "BAR"
unfolding resolve_category lookup
restaurant_or_bar = refl

evaluate_policy_example :
    let s = signals_of trimmed (some "loja bar") (some "BAR") (some "bank") none in
    let r = evaluate trimmed (some "loja bar") (some "BAR") (some "bank") none in
    (r.eligible ≡ (
      s.named
      && not s.blocked_type
      && (s.good_category || not (s.hard_keyword || s.ambiguous_keyword))))
    × (soft_deletable r ≡ (
        not s.named
        || s.blocked_type
        || not s.good_category && (s.hard_keyword || s.ambiguous_keyword && s.labeled)))
evaluate_policy_example = evaluate_policy trimmed (some "loja bar") (some "BAR") (some "bank") none

pub_type : representative_google_type trimmed "PUB" ≡ some "pub"
unfolding representative_google_type lookup
pub_type = refl

correction-IsServed_example :
    (evaluate trimmed (some "pub do mercado") (some "BAR") (some "pub") none).eligible ≡ true
correction-IsServed_example =
    correction-IsServed trimmed "PUB" "pub" (some "pub do mercado") (some "BAR") trimmed-IsCase
      pub_type refl refl

abbrev entry : String → Json → Json
entry slug radius = obj (field "slug" (str slug) (field "radius_km" radius end))

abbrev fence_text : Json
fence_text = obj (
    field "cities"
      (arr (cons (entry "recife" (int (pos 40))) (cons (entry "natal" (decimal (pos 255) 1)) nil)))
      end)

-- The cities are sorted by name.
fence_run :
    load_geo_fence (parsed fence_text)
    ≡ ok (record {
      enabled = true;
      cities =
          record { city = natal; radius = record { digits = pos 255; places = 1 } }
          ∷ record { city = recife; radius = record { digits = pos 40; places = 0 } }
          ∷ [];
    })
unfolding load_geo_fence validate_geo_fence circles_of capital_of insert sort points_lt get
    too_large
fence_run = refl

-- A capital twice is refused.
twice_refused :
    validate_geo_fence (
      obj (
        field "cities"
          (arr (cons (entry "recife" (int (pos 40))) (cons (entry "recife" (int (pos 50))) nil)))
          end))
    ≡ raised value_error
unfolding validate_geo_fence circles_of capital_of get too_large
twice_refused = refl

-- A radius that is too large for a float is not caught: no fence is read, though the docstring promises
-- the default one.
huge_run :
    load_geo_fence
      (parsed (obj (field "cities" (arr (cons (entry "recife" (int (pos (10 ^ 400)))) nil)) end)))
    ≡ raised overflow_error
unfolding load_geo_fence validate_geo_fence circles_of capital_of get too_large
huge_run = refl

load_geo_fence-IsFence_example :
    Loaded (read_large (parsed fence_text)) (load_geo_fence (parsed fence_text))
load_geo_fence-IsFence_example = load_geo_fence-IsFence (parsed fence_text)
