-- ===== src/Events/Unions/Lineup.antt =====
-- Line-ups only grow: the union has every name of both, once, in first-seen order.
use mathlib.Core.List.{append-nil, append_assoc}
use cs_server.Prelude.{
  sym, ◌∙◌, String, ◌≡◌, refl, true, false, ◌||◌, List, [], ◌∷◌, ◌++◌, arith, eq_iff, eq_refl, elem,
  elem-append, Distinct, Bool-cases, inl, inr,
}
use cs_server.Events.Unions.{add_new, union_lineup}

elem-add_new :
    (a : String) (out xs : List String) → elem a (add_new out xs) ≡ (elem a out || elem a xs)
unfolding add_new
elem-add_new a out [] = ground arith
elem-add_new a out (x ∷ xs) = elim (Bool-cases (elem x out)) [
  | inl old ↦ rw old (ground (arith, elem-add_new a out xs, eq_iff a x))
  | inr new ↦
      rw new
        (ground (arith, elem-add_new a (out ++ x ∷ []) xs, elem-append a out (x ∷ []), eq_iff a x))
]

Distinct-snoc :
    (out : List String) (x : String) → Distinct out → elem x out ≡ false → Distinct (out ++ x ∷ [])
Distinct-snoc [] x d n = (refl, tt)
Distinct-snoc (y ∷ ys) x d n = (
  ground (arith, elem-append y ys (x ∷ []), eq_iff x y, eq_iff y x),
  Distinct-snoc ys x d.1 (ground arith),
)

add_new-Distinct : (out xs : List String) → Distinct out → Distinct (add_new out xs)
unfolding add_new
add_new-Distinct out [] d = d
add_new-Distinct out (x ∷ xs) d = elim (Bool-cases (elem x out)) [
  | inl old ↦ rw old (add_new-Distinct out xs d)
  | inr new ↦ rw new (add_new-Distinct (out ++ x ∷ []) xs (Distinct-snoc out x d new))
]

-- All of xs is in out.
abbrev AllIn : List String → List String → Type 0
AllIn out [] = Unit
AllIn out (x ∷ xs) = (elem x out ≡ true) × AllIn out xs

add_new-absorbed : (out xs : List String) → AllIn out xs → add_new out xs ≡ out
unfolding add_new
add_new-absorbed out [] h = refl
add_new-absorbed out (x ∷ xs) h = rw h.0 (add_new-absorbed out xs h.1)

AllIn-of :
    (out xs : List String) → ((a : String) → elem a xs ≡ true → elem a out ≡ true) → AllIn out xs
AllIn-of out [] h = tt
AllIn-of out (x ∷ xs) h =
    (h x (ground (arith, eq_refl x)), AllIn-of out xs (λ a m. h a (ground arith)))

add_new-prefix : (out xs : List String) → (rest : List String) × (add_new out xs ≡ out ++ rest)
unfolding add_new
add_new-prefix out [] = ([], sym (append-nil out))
add_new-prefix out (x ∷ xs) = elim (Bool-cases (elem x out)) [
  | inl old ↦ let (r, e) = add_new-prefix out xs in (r, rw old e)
  | inr new ↦
      let (r, e) = add_new-prefix (out ++ x ∷ []) xs in
      (x ∷ r, rw new (e ∙ append_assoc out (x ∷ []) r))
]

head-absent : (x : String) (out xs : List String) → Distinct (out ++ x ∷ xs) → elem x out ≡ false
head-absent x [] xs d = refl
head-absent x (y ∷ ys) xs d =
    ground (arith, head-absent x ys xs d.1, elem-append y ys (x ∷ xs), eq_iff x y, eq_iff y x)

add_new-Distinct_id : (out xs : List String) → Distinct (out ++ xs) → add_new out xs ≡ out ++ xs
unfolding add_new
add_new-Distinct_id out [] d = sym (append-nil out)
add_new-Distinct_id out (x ∷ xs) d = rw (head-absent x out xs d) (
    add_new-Distinct_id (out ++ x ∷ []) xs (rw (append_assoc out (x ∷ []) xs) d)
    ∙ append_assoc out (x ∷ []) xs)

union_lineup-elem :
    (a b : List String) (x : String) → elem x (union_lineup a b) ≡ (elem x a || elem x b)
unfolding union_lineup
union_lineup-elem a b x = ground (arith, elem-add_new x (add_new [] a) b, elem-add_new x [] a)

union_lineup-Distinct : (a b : List String) → Distinct (union_lineup a b)
unfolding union_lineup
union_lineup-Distinct a b = add_new-Distinct (add_new [] a) b (add_new-Distinct [] a tt)

union_lineup-again : (a b u : List String) → Distinct u → AllIn u b → union_lineup u b ≡ u
unfolding union_lineup
union_lineup-again a b u d h = rw (add_new-Distinct_id [] u d) (add_new-absorbed u b h)

-- The union holds exactly the names of the two line-ups, none twice; it begins with the first line-up
-- where that names nobody twice; and adding the second line-up once more changes nothing.
pub union_lineup-laws :
    (a b : List String)
    → ((x : String) → elem x (union_lineup a b) ≡ (elem x a || elem x b))
      × Distinct (union_lineup a b)
      × (Distinct a → (rest : List String) × (union_lineup a b ≡ a ++ rest))
      × (union_lineup (union_lineup a b) b ≡ union_lineup a b)
unfolding union_lineup
union_lineup-laws a b = (
  union_lineup-elem a b,
  union_lineup-Distinct a b,
  λ d. rw (add_new-Distinct_id [] a d) (add_new-prefix a b),
  union_lineup-again a b (union_lineup a b) (union_lineup-Distinct a b)
      (AllIn-of (union_lineup a b) b (λ x m. ground (arith, union_lineup-elem a b x))),
)
