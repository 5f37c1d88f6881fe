-- ===== src/Eligibility/Fence/Valid.antt =====
-- What every fence that is read has.
use cs_server.Prelude.{
  String, ◌≡◌, refl, inl, inr, Bool, true, false, not, ◌||◌, Option, none, some, List, [], ◌∷◌,
  arith, Distinct, Bool-cases,
}
use cs_server.Python.Except.{Result, ok, raised, value_error, type_error, overflow_error}
use cs_server.Python.Json.{Json, null, bool, int, decimal, str, arr, obj, nil, cons, get}
use cs_server.Eligibility.Fence.{
  Circle, Fence, extend, capital_of, circle_of, after, circles_of, fence_of, validate_cities,
  validate_enabled, is_legacy_box, validate_geo_fence, MirrorRead, no_client, read_failed, missing,
  invalid_json, parsed, fence_or_default, load_geo_fence, default_geo_fence,
}
use cs_server.Eligibility.Fence.Circles.{
  any_large, AllCircles, slugs, is_nonempty, Holds, AreNew, circles_of-AreNew,
}
use cs_server.Eligibility.Fence.Sorting.{sort-AllCircles, sort-Distinct, is_nonempty-sort}

-- Circles of the catalog, no capital twice, and at least one where the fence is on.
pub record IsFence (f : Fence) : Type 0 where
  pub circles : AllCircles f.cities
  pub distinct : Distinct (slugs f.cities)
  pub not_vacuous : (not f.enabled || is_nonempty f.cities) ≡ true

default_geo_fence-IsFence : IsFence default_geo_fence
unfolding capital_of
default_geo_fence-IsFence = record {
  circles = (record { in_catalog = refl; in_bounds = refl }, tt);
  distinct = (refl, tt);
  not_vacuous = refl;
}

-- Some entry of the cities has a radius that is too large for a float.
abbrev pub cities_large : Option Json → Bool
cities_large (some (arr vs)) = any_large vs
cities_large _ = false

abbrev pub fence_large : Json → Bool
fence_large (obj body) = cities_large (get "cities" body)
fence_large _ = false

abbrev pub read_large : MirrorRead → Bool
read_large (parsed v) = fence_large v
read_large _ = false

-- A fence, if the validation returns one.
abbrev Valid : Bool → Result Fence → Type 0
Valid large r = Holds large IsFence r

abbrev Filled : Bool → List Circle → Type 0
Filled enabled cs = (not enabled || is_nonempty cs) ≡ true

fence_of-Valid :
    (large enabled : Bool) (o : Result (List Circle))
    → Holds large (AreNew []) o
    → Holds large (Filled enabled) o
    → Valid large (fence_of enabled o)
fence_of-Valid large enabled (raised e) h k = h
fence_of-Valid large enabled (ok cs) h k = record {
  circles = sort-AllCircles cs h.circles;
  distinct = sort-Distinct cs h.distinct;
  not_vacuous = rw (is_nonempty-sort cs) k;
}

extend-nonempty :
    (large enabled : Bool) (c : Circle) (o : Result (List Circle))
    → Holds large (AreNew []) (extend c o)
    → Holds large (Filled enabled) (extend c o)
extend-nonempty large enabled c (raised e) h = h
extend-nonempty large enabled c (ok cs) h = ground arith

-- What the loop returns after a first circle is not empty.
after-nonempty :
    (large enabled : Bool) (o : Result Circle) (rest : String → Result (List Circle))
    → Holds large (AreNew []) (after o rest)
    → Holds large (Filled enabled) (after o rest)
after-nonempty large enabled (raised e) rest h = h
after-nonempty large enabled (ok c) rest h = extend-nonempty large enabled c (rest c.city.slug) h

validate_cities-Valid :
    (enabled : Bool) (o : Option Json) → Valid (cities_large o) (validate_cities enabled o)
unfolding circles_of
validate_cities-Valid true (some (arr nil)) = inl refl
validate_cities-Valid false (some (arr nil)) =
    fence_of-Valid false false (ok []) (circles_of-AreNew [] nil) refl
validate_cities-Valid enabled (some (arr (cons v vs))) =
    let h = circles_of-AreNew [] (cons v vs) in
    fence_of-Valid (any_large (cons v vs)) enabled (circles_of [] (cons v vs)) h (
      after-nonempty (any_large (cons v vs)) enabled (circle_of [] v)
        (λ slug. circles_of (slug ∷ []) vs) h)
validate_cities-Valid enabled none = inl refl
validate_cities-Valid enabled (some null) = inl refl
validate_cities-Valid enabled (some (bool b)) = inl refl
validate_cities-Valid enabled (some (int n)) = inl refl
validate_cities-Valid enabled (some (decimal m k)) = inl refl
validate_cities-Valid enabled (some (str t)) = inl refl
validate_cities-Valid enabled (some (obj fs)) = inl refl

validate_enabled-Valid : (e c : Option Json) → Valid (cities_large c) (validate_enabled e c)
validate_enabled-Valid none c = validate_cities-Valid true c
validate_enabled-Valid (some (bool b)) c = validate_cities-Valid b c
validate_enabled-Valid (some null) c = inl refl
validate_enabled-Valid (some (int n)) c = inl refl
validate_enabled-Valid (some (decimal m k)) c = inl refl
validate_enabled-Valid (some (str t)) c = inl refl
validate_enabled-Valid (some (arr vs)) c = inl refl
validate_enabled-Valid (some (obj fs)) c = inl refl

validate_geo_fence-Valid : (v : Json) → Valid (fence_large v) (validate_geo_fence v)
unfolding validate_geo_fence
validate_geo_fence-Valid (obj body) = elim (Bool-cases (is_legacy_box body)) [
  | inl legacy ↦ rw legacy (inl refl)
  | inr new ↦ rw new (validate_enabled-Valid (get "enabled" body) (get "cities" body))
]
validate_geo_fence-Valid null = inl refl
validate_geo_fence-Valid (bool b) = inl refl
validate_geo_fence-Valid (int n) = inl refl
validate_geo_fence-Valid (decimal m k) = inl refl
validate_geo_fence-Valid (str t) = inl refl
validate_geo_fence-Valid (arr vs) = inl refl

-- A fence is returned, or `OverflowError` is raised for a radius that is too large.
abbrev pub Loaded : Bool → Result Fence → Type 0
Loaded large (ok f) = IsFence f
Loaded large (raised e) = (e ≡ overflow_error) × (large ≡ true)

or_default-Loaded :
    (large : Bool) (r : Result Fence) → Valid large r → Loaded large (fence_or_default r)
or_default-Loaded large (ok f) h = h
or_default-Loaded large (raised value_error) h = default_geo_fence-IsFence
or_default-Loaded large (raised type_error) h = default_geo_fence-IsFence
or_default-Loaded large (raised e) (inr h) = h
or_default-Loaded large (raised e) (inl h) = absurd (cc h)

-- Whatever the mirror holds, valid or not, the fence that is read has only circles around capitals of
-- the catalog, at the catalog's coordinates and with radii from 1 to 200 kilometres, none of them twice,
-- and a fence that is on has at least one circle. Only where the mirror holds an entry whose radius is
-- an integer too large for a float, no fence may be read, and then the error is `OverflowError`.
pub load_geo_fence-IsFence : (r : MirrorRead) → Loaded (read_large r) (load_geo_fence r)
unfolding load_geo_fence
load_geo_fence-IsFence no_client = default_geo_fence-IsFence
load_geo_fence-IsFence read_failed = default_geo_fence-IsFence
load_geo_fence-IsFence missing = default_geo_fence-IsFence
load_geo_fence-IsFence invalid_json = default_geo_fence-IsFence
load_geo_fence-IsFence (parsed v) =
    or_default-Loaded (fence_large v) (validate_geo_fence v) (validate_geo_fence-Valid v)
