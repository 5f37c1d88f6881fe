-- ===== src/Eligibility/Fence/Sorting.antt =====
-- Sorting by name keeps what a geo-fence promises.
use cs_server.Prelude.{
  String, ◌≡◌, refl, ◌∙◌, inl, inr, true, false, ◌||◌, List, [], ◌∷◌, arith, str_eq, elem, Distinct,
  eq_iff, Bool-cases,
}
use cs_server.Eligibility.Fence.{Circle, name_lt, insert, sort}
use cs_server.Eligibility.Fence.Circles.{IsCircle, AllCircles, slugs, is_nonempty}

insert-AllCircles :
    (c : Circle) (cs : List Circle) → IsCircle c → AllCircles cs → AllCircles (insert c cs)
unfolding insert
insert-AllCircles c [] k h = (k, tt)
insert-AllCircles c (d ∷ ds) k (e, h) = elim (Bool-cases (name_lt d c)) [
  | inl before ↦ rw before (e, insert-AllCircles c ds k h)
  | inr here ↦ rw here (k, (e, h))
]

elem-insert :
    (s : String) (c : Circle) (cs : List Circle)
    → elem s (slugs (insert c cs)) ≡ (str_eq s c.city.slug || elem s (slugs cs))
unfolding insert
elem-insert s c [] = refl
elem-insert s c (d ∷ ds) = elim (Bool-cases (name_lt d c)) [
  | inl before ↦ rw before (ground (arith, elem-insert s c ds))
  | inr here ↦ rw here refl
]

insert-Distinct :
    (c : Circle) (cs : List Circle)
    → elem c.city.slug (slugs cs) ≡ false
    → Distinct (slugs cs)
    → Distinct (slugs (insert c cs))
unfolding insert
insert-Distinct c [] n h = (refl, tt)
insert-Distinct c (d ∷ ds) n (first, h) = elim (Bool-cases (name_lt d c)) [
  | inl before ↦ rw before (
    ground (
      arith,
      elem-insert d.city.slug c ds,
      eq_iff c.city.slug d.city.slug,
      eq_iff d.city.slug c.city.slug,
    ),
    insert-Distinct c ds (ground arith) h,
  )
  | inr here ↦ rw here (n, (first, h))
]

is_nonempty-insert : (c : Circle) (cs : List Circle) → is_nonempty (insert c cs) ≡ true
unfolding insert
is_nonempty-insert c [] = refl
is_nonempty-insert c (d ∷ ds) = elim (Bool-cases (name_lt d c)) [
  | inl before ↦ rw before refl
  | inr here ↦ rw here refl
]

elem-sort : (s : String) (cs : List Circle) → elem s (slugs (sort cs)) ≡ elem s (slugs cs)
unfolding sort
elem-sort s [] = refl
elem-sort s (c ∷ cs) = ground (arith, elem-insert s c (sort cs), elem-sort s cs)

pub sort-AllCircles : (cs : List Circle) → AllCircles cs → AllCircles (sort cs)
unfolding sort
sort-AllCircles [] h = tt
sort-AllCircles (c ∷ cs) (k, h) = insert-AllCircles c (sort cs) k (sort-AllCircles cs h)

pub sort-Distinct : (cs : List Circle) → Distinct (slugs cs) → Distinct (slugs (sort cs))
unfolding sort
sort-Distinct [] h = tt
sort-Distinct (c ∷ cs) (n, h) =
    insert-Distinct c (sort cs) (elem-sort c.city.slug cs ∙ n) (sort-Distinct cs h)

pub is_nonempty-sort : (cs : List Circle) → is_nonempty (sort cs) ≡ is_nonempty cs
unfolding sort
is_nonempty-sort [] = refl
is_nonempty-sort (c ∷ cs) = is_nonempty-insert c (sort cs)
