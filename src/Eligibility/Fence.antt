-- ===== src/Eligibility/Fence.antt =====
-- The geo-fence of app/services/venue_eligibility.py: its validation, its reading and the exclusion.
-- The distance on the sphere is trigonometry on floats, which is a parameter.
pub mod Circles
pub mod Sorting
pub mod Valid
use cs_server.Prelude.{
  ℕ, ◌*◌, ◌^◌, ◌-◌, ◌+◌, leb, String, Bool, true, false, not, ◌&&◌, ◌||◌, Option, none, some, List,
  [], ◌∷◌, ltb, str_eq, elem, if◌then◌else◌,
}
use cs_server.Prelude.Int.{ℤ, pos, negsuc, pos_part, leb_ℤ}
use cs_server.Python.Except.{Result, ok, raised, value_error, type_error, overflow_error}
use cs_server.Python.Json.{
  Json, null, bool, int, decimal, str, arr, obj, Items, nil, cons, Fields, get,
}
use cs_server.Events.Merge.{points_lt}
use cs_server.Python.Json.{codes}
use cs_server.Eligibility.Capitals.{Capital, recife, state_capitals}

-- A radius in kilometres, `digits / 10 ^ places`.
pub record Radius : Type 0 where
  pub digits : ℤ
  pub places : ℕ

pub record Circle : Type 0 where
  pub city : Capital
  pub radius : Radius

pub record Fence : Type 0 where
  pub enabled : Bool
  pub cities : List Circle

abbrev pub default_geo_fence : Fence
default_geo_fence = record {
  enabled = true;
  cities = record { city = recife; radius = record { digits = pos 40; places = 0 } } ∷ [];
}

-- `CAPITALS_BY_SLUG.get(slug)`
unfoldable pub capital_of : String → List Capital → Option Capital
capital_of slug [] = none
capital_of slug (c ∷ cs) =
    let rest = capital_of slug cs in if str_eq c.slug slug then some c else rest

-- `isinstance(radius, (int, float))` without the bools.
abbrev pub number_of : Option Json → Option Radius
number_of (some (int n)) = some (record { digits = n; places = 0 })
number_of (some (decimal m k)) = some (record { digits = m; places = k })
number_of _ = none

-- From 1 to 200 kilometres.
abbrev pub in_radius_bounds : Radius → Bool
in_radius_bounds r =
    leb_ℤ (pos (10 ^ r.places)) r.digits && leb_ℤ r.digits (pos (200 * 10 ^ r.places))

abbrev pub is_there : Option Json → Bool
is_there none = false
is_there (some v) = true

abbrev pub is_legacy_box : Fields → Bool
is_legacy_box body =
    is_there (get "min_lat" body)
    || is_there (get "max_lat" body)
    || is_there (get "min_lng" body)
    || is_there (get "max_lng" body)

abbrev pub slug_of : Option Json → Option String
slug_of (some (str s)) = some s
slug_of _ = none

abbrev pub known : Option String → Option Capital
known none = none
known (some slug) = capital_of slug state_capitals

-- An integer for which `float` raises `OverflowError`: from the middle between the largest float and
-- the next power of two on.
abbrev overflows : ℤ → Bool
overflows (pos n) = leb (2 ^ 1024 - 2 ^ 970) n
overflows (negsuc n) = leb (2 ^ 1024 - 2 ^ 970) (n + 1)

-- The radius is such an integer. A float of JSON, even an infinite one, is taken as it is.
unfoldable pub too_large : Option Json → Bool
too_large (some (int n)) = overflows n
too_large _ = false

-- A city's radius, within the bounds, unless `float` fails.
abbrev pub bounded : Capital → Bool → Option Radius → Result Circle
bounded c large none = raised value_error
bounded c large (some r) =
    if large
    then raised overflow_error
    else (if in_radius_bounds r then ok (record { city = c; radius = r }) else raised value_error)

abbrev pub unseen : List String → Option Capital → Bool → Option Radius → Result Circle
unseen seen none large r = raised value_error
unseen seen (some c) large r = if elem c.slug seen then raised value_error else bounded c large r

-- One entry of `cities`.
abbrev pub circle_of : List String → Json → Result Circle
circle_of seen (obj entry) =
    unseen seen (known (slug_of (get "slug" entry))) (too_large (get "radius_km" entry))
      (number_of (get "radius_km" entry))
circle_of seen _ = raised value_error

abbrev pub extend : Circle → Result (List Circle) → Result (List Circle)
extend c (raised e) = raised e
extend c (ok cs) = ok (c ∷ cs)

abbrev pub after : Result Circle → (String → Result (List Circle)) → Result (List Circle)
after (raised e) rest = raised e
after (ok c) rest = extend c (rest c.city.slug)

-- The loop over the entries, with the slugs that were seen. The first fault ends it.
unfoldable pub circles_of : List String → Items → Result (List Circle)
unfolding too_large
circles_of seen nil = ok []
circles_of seen (cons entry rest) =
    after (circle_of seen entry) λ slug. circles_of (slug ∷ seen) rest

-- `normalized.sort(key=lambda c: c["name"])`, which is stable.
abbrev pub name_lt : Circle → Circle → Bool
name_lt a b = points_lt (codes a.city.name) (codes b.city.name)

unfoldable pub insert : Circle → List Circle → List Circle
insert c [] = c ∷ []
insert c (d ∷ ds) = let rest = insert c ds in if name_lt d c then d ∷ rest else c ∷ d ∷ ds

unfoldable pub sort : List Circle → List Circle
unfolding insert
sort [] = []
sort (c ∷ cs) = insert c (sort cs)

abbrev pub fence_of : Bool → Result (List Circle) → Result Fence
fence_of enabled (raised e) = raised e
fence_of enabled (ok cs) = ok (record { enabled = enabled; cities = sort cs })

abbrev pub validate_cities : Bool → Option Json → Result Fence
validate_cities enabled (some (arr nil)) =
    if enabled then raised value_error else fence_of enabled (circles_of [] nil)
validate_cities enabled (some (arr (cons v vs))) = fence_of enabled (circles_of [] (cons v vs))
validate_cities enabled _ = raised value_error

-- `data.get("enabled", True)` is to be a bool.
abbrev pub validate_enabled : Option Json → Option Json → Result Fence
validate_enabled none cities = validate_cities true cities
validate_enabled (some (bool b)) cities = validate_cities b cities
validate_enabled (some _) cities = raised value_error

unfoldable pub validate_geo_fence : Json → Result Fence
validate_geo_fence (obj body) =
    if is_legacy_box body
    then raised value_error
    else validate_enabled (get "enabled" body) (get "cities" body)
validate_geo_fence _ = raised value_error

-- What the Redis mirror gives: there is no client, the read fails, the key is missing, the text is no
-- JSON, or a value.
pub data MirrorRead : Type 0 where
  no_client read_failed missing invalid_json : MirrorRead
  parsed : Json → MirrorRead

-- The `except` catches `ValueError` and `TypeError` alone.
abbrev pub fence_or_default : Result Fence → Result Fence
fence_or_default (ok f) = ok f
fence_or_default (raised value_error) = ok default_geo_fence
fence_or_default (raised type_error) = ok default_geo_fence
fence_or_default (raised e) = raised e

unfoldable pub load_geo_fence : MirrorRead → Result Fence
load_geo_fence (parsed v) = fence_or_default (validate_geo_fence v)
load_geo_fence _ = ok default_geo_fence
