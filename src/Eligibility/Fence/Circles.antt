-- ===== src/Eligibility/Fence/Circles.antt =====
-- What the entries of a geo-fence are read to.
use cs_server.Prelude.{
  String, ◌≡◌, refl, sym, ap, ◌∙◌, ◌||◌, ◌⊎◌, inl, inr, Bool, true, false, Option, none, some, List,
  [], ◌∷◌, arith, str_eq, elem, Distinct, eq_iff, eq_refl, Bool-cases, Option-cases, subst,
}
use cs_server.Python.Except.{Error, Result, ok, raised, value_error, overflow_error}
use cs_server.Python.Json.{Json, null, bool, int, decimal, str, arr, obj, Items, nil, cons, get}
use cs_server.Eligibility.Capitals.{Capital, state_capitals}
use cs_server.Eligibility.Fence.{
  Radius, Circle, capital_of, number_of, in_radius_bounds, slug_of, known, bounded, unseen,
  circle_of, extend, after, circles_of, too_large,
}

-- A circle around a capital, with the catalog's coordinates, and a radius from 1 to 200 kilometres.
pub record IsCircle (c : Circle) : Type 0 where
  pub in_catalog : capital_of c.city.slug state_capitals ≡ some c.city
  pub in_bounds : in_radius_bounds c.radius ≡ true

abbrev pub AllCircles : List Circle → Type 0
AllCircles [] = Unit
AllCircles (c ∷ cs) = IsCircle c × AllCircles cs

abbrev pub slugs : List Circle → List String
slugs [] = []
slugs (c ∷ cs) = c.city.slug ∷ slugs cs

abbrev pub is_nonempty : List Circle → Bool
is_nonempty [] = false
is_nonempty (c ∷ cs) = true

capital_of_self :
    (slug : String) (c : Capital) (cs : List Capital) → capital_of slug cs ≡ some c → c.slug ≡ slug
unfolding capital_of
capital_of_self slug c [] h = cc
capital_of_self slug c (d ∷ ds) h = elim (Bool-cases (str_eq d.slug slug)) [
  | inl same ↦ grind (arith, eq_iff d.slug slug)
  | inr other ↦ capital_of_self slug c ds (ground arith)
]

abbrev pub HoldsOption : {A : Type 0} → (A → Type 0) → Option A → Type 0
HoldsOption P none = Unit
HoldsOption P (some a) = P a

-- The errors that may come: `OverflowError` only where there is a radius that is too large.
abbrev pub Faulty : Bool → Error → Type 0
Faulty large e = (e ≡ value_error) ⊎ ((e ≡ overflow_error) × (large ≡ true))

-- A property of the value that is returned, or one of these errors.
abbrev pub Holds : {A : Type 0} → Bool → (A → Type 0) → Result A → Type 0
Holds large P (raised e) = Faulty large e
Holds large P (ok a) = P a

Holds-map :
    {A : Type 0} {P Q : A → Type 0} (large : Bool)
    → ((a : A) → P a → Q a)
    → (o : Result A) → Holds large P o
    → Holds large Q o
Holds-map large f (raised e) h = h
Holds-map large f (ok a) h = f a h

Faulty-left : (a b : Bool) (e : Error) → Faulty a e → Faulty (a || b) e
Faulty-left a b e (inl h) = inl h
Faulty-left a b e (inr (h, l)) = inr (h, rw l refl)

Faulty-right : (a b : Bool) (e : Error) → Faulty b e → Faulty (a || b) e
Faulty-right a b e (inl h) = inl h
Faulty-right a b e (inr (h, l)) = inr (h, ground arith)

-- Some entry has such a radius.
abbrev pub entry_large : Json → Bool
entry_large (obj entry) = too_large (get "radius_km" entry)
entry_large _ = false

abbrev pub any_large : Items → Bool
any_large nil = false
any_large (cons v vs) = entry_large v || any_large vs

abbrev InCatalog : Capital → Type 0
InCatalog c = capital_of c.slug state_capitals ≡ some c

known-InCatalog : (o : Option String) → HoldsOption InCatalog (known o)
known-InCatalog none = tt
known-InCatalog (some slug) = elim (Option-cases (capital_of slug state_capitals)) [
  | inl missed ↦ rw missed tt
  | inr (c, h) ↦
      rw h (ap (λ s. capital_of s state_capitals) (capital_of_self slug c state_capitals h) ∙ h)
]

abbrev IsAround : Capital → Circle → Type 0
IsAround d c = (c.city ≡ d) × (in_radius_bounds c.radius ≡ true)

bounded-IsAround :
    (d : Capital) (large : Bool) (o : Option Radius) → Holds large (IsAround d) (bounded d large o)
bounded-IsAround d large none = inl refl
bounded-IsAround d true (some r) = inr (refl, refl)
bounded-IsAround d false (some r) = elim (Bool-cases (in_radius_bounds r)) [
  | inl inside ↦ rw inside (refl, inside)
  | inr outside ↦ rw outside (inl refl)
]

abbrev IsNew : List String → Circle → Type 0
IsNew seen c = IsCircle c × (elem c.city.slug seen ≡ false)

IsAround-IsNew :
    (seen : List String) (d : Capital)
    → InCatalog d
    → elem d.slug seen ≡ false
    → (c : Circle) → IsAround d c
    → IsNew seen c
IsAround-IsNew seen d k first c (e, b) = (
  record { in_catalog = subst InCatalog (sym e) k; in_bounds = b },
  subst (λ x. elem x.slug seen ≡ false) (sym e) first,
)

unseen-IsNew :
    (seen : List String) (o : Option Capital) (large : Bool) (r : Option Radius)
    → HoldsOption InCatalog o
    → Holds large (IsNew seen) (unseen seen o large r)
unseen-IsNew seen none large r k = inl refl
unseen-IsNew seen (some d) large r k = elim (Bool-cases (elem d.slug seen)) [
  | inl again ↦ rw again (inl refl)
  | inr first ↦ rw first (
      Holds-map large (IsAround-IsNew seen d k first) (bounded d large r)
        (bounded-IsAround d large r))
]

circle_of-IsNew :
    (seen : List String) (v : Json) → Holds (entry_large v) (IsNew seen) (circle_of seen v)
circle_of-IsNew seen (obj entry) =
    unseen-IsNew seen (known (slug_of (get "slug" entry))) (too_large (get "radius_km" entry))
      (number_of (get "radius_km" entry)) (known-InCatalog (slug_of (get "slug" entry)))
circle_of-IsNew seen null = inl refl
circle_of-IsNew seen (bool b) = inl refl
circle_of-IsNew seen (int n) = inl refl
circle_of-IsNew seen (decimal m k) = inl refl
circle_of-IsNew seen (str t) = inl refl
circle_of-IsNew seen (arr vs) = inl refl

-- The circles that are read from the entries, given the slugs of the entries before.
pub record AreNew (seen : List String) (cs : List Circle) : Type 0 where
  pub circles : AllCircles cs
  pub distinct : Distinct (slugs cs)
  pub unseen_before : (s : String) → elem s seen ≡ true → elem s (slugs cs) ≡ false

extend-AreNew :
    (seen : List String) (large : Bool) (c : Circle) (o : Result (List Circle))
    → IsNew seen c
    → Holds large (AreNew (c.city.slug ∷ seen)) o
    → Holds large (AreNew seen) (extend c o)
extend-AreNew seen large c (raised e) n h = h
extend-AreNew seen large c (ok cs) (k, first) h = record {
  circles = (k, h.circles);
  distinct = (h.unseen_before c.city.slug (ground (arith, eq_refl c.city.slug)), h.distinct);
  unseen_before = λ s e. ground (arith, h.unseen_before s, eq_iff s c.city.slug);
}

Holds-right :
    {A : Type 0} (a b : Bool) (P : A → Type 0) (o : Result A) → Holds b P o → Holds (a || b) P o
Holds-right a b P (raised e) h = Faulty-right a b e h
Holds-right a b P (ok x) h = h

after-AreNew :
    (seen : List String) (a b : Bool) (o : Result Circle) (rest : String → Result (List Circle))
    → Holds a (IsNew seen) o
    → ((slug : String) → Holds b (AreNew (slug ∷ seen)) (rest slug))
    → Holds (a || b) (AreNew seen) (after o rest)
after-AreNew seen a b (raised e) rest n h = Faulty-left a b e n
after-AreNew seen a b (ok c) rest n h =
    extend-AreNew seen (a || b) c (rest c.city.slug) n
      (Holds-right a b (AreNew (c.city.slug ∷ seen)) (rest c.city.slug) (h c.city.slug))

pub circles_of-AreNew :
    (seen : List String) (vs : Items) → Holds (any_large vs) (AreNew seen) (circles_of seen vs)
unfolding circles_of
circles_of-AreNew seen nil = record { circles = tt; distinct = tt; unseen_before = λ s e. refl }
circles_of-AreNew seen (cons v vs) =
    after-AreNew seen (entry_large v) (any_large vs) (circle_of seen v)
      (λ slug. circles_of (slug ∷ seen) vs) (circle_of-IsNew seen v)
      (λ slug. circles_of-AreNew (slug ∷ seen) vs)
