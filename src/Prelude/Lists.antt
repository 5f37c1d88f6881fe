-- ===== src/Prelude/Lists.antt =====
-- Lists measured by native numbers, and lists of texts used as sets (Python's `in`, `append`).
use Prim.Native.Nat.{ℕ, suc, ◌+◌}
use Prim.Native.String.{String}
use mathlib.Core.Path.{◌≡◌, refl}
use mathlib.Core.Bool.{Bool, false, ◌||◌}
use mathlib.Core.List.{List, [], ◌∷◌, ◌++◌}
use native.Mathlib.Omega.{arith}
use text.Mathlib.TextEquality.{eq_iff}
use text.Mathlib.TextPositions.{eq_refl}
use cs_server.Prelude.Tests.{str_eq, if◌then◌else◌}

module _ {ℓ} {A : Type ℓ} where
  abbrev pub length : List A → ℕ
  length [] = 0
  length (x ∷ xs) = suc (length xs)

  pub length-append : (xs ys : List A) → length (xs ++ ys) ≡ length xs + length ys
  length-append [] ys = omega arith
  length-append (x ∷ xs) ys = omega (arith, length-append xs ys)

pub str_eq_sym : (a b : String) → str_eq a b ≡ str_eq b a
str_eq_sym a b = ground (arith, eq_iff a b, eq_iff b a)

abbrev pub elem : String → List String → Bool
elem a [] = false
elem a (x ∷ xs) = str_eq a x || elem a xs

-- No element twice.
abbrev pub Distinct : List String → Type 0
Distinct [] = Unit
Distinct (x ∷ xs) = (elem x xs ≡ false) × Distinct xs

-- `discard`: every occurrence goes.
abbrev pub remove : String → List String → List String
remove a [] = []
remove a (x ∷ xs) = let rest = remove a xs in if str_eq a x then rest else x ∷ rest

pub elem-remove :
    (a b : String) (xs : List String)
    → elem b (remove a xs) ≡ (if str_eq a b then false else elem b xs)
elem-remove a b [] = ground arith
elem-remove a b (x ∷ xs) = ground (arith, elem-remove a b xs, eq_iff a x, eq_iff b x, eq_iff a b)

pub remove-absent : (a : String) (xs : List String) → elem a xs ≡ false → remove a xs ≡ xs
remove-absent a [] h = refl
remove-absent a (x ∷ xs) h = ground (arith, remove-absent a xs)

pub remove-cons_self : (a : String) (xs : List String) → elem a xs ≡ false → remove a (a ∷ xs) ≡ xs
remove-cons_self a xs h = ground (arith, remove-absent a xs, eq_refl a)

pub elem-append : (a : String) (xs ys : List String) → elem a (xs ++ ys) ≡ (elem a xs || elem a ys)
elem-append a [] ys = refl
elem-append a (x ∷ xs) ys = ground (arith, elem-append a xs ys)
