-- ===== src/Venues/Targeting/Chosen.antt =====
-- Which venues stage 2 takes.
use cs_server.Prelude.{
  ℕ, ◌≤◌, zero, suc, String, ◌≡◌, ap, ◌∙◌, Bool, true, false, not, ◌&&◌, List, [], ◌∷◌, str_eq,
  elem, length, Bool-cases, inl, inr, arith, eq_iff,
}
use cs_server.Venues.Targeting.Config.{GateReason}
use cs_server.Venues.Targeting.Evidence.{take}
use cs_server.Venues.Targeting.State.{Profiles, has_passed, is_evaluated, those_passed, needing}

pub elem-take :
    (n : ℕ) (v : String) (vs : List String) → elem v (take n vs) ≡ true → elem v vs ≡ true
elem-take zero v vs h = absurd (cc h)
elem-take (suc n) v [] h = h
elem-take (suc n) v (u ∷ us) h = elim (Bool-cases (str_eq v u)) [
  | inl e ↦ ground arith
  | inr e ↦ let later = elem-take n v us (ground arith) in ground (arith, later)
]

pub length-take : (n : ℕ) (vs : List String) → length (take n vs) ≤ n
length-take zero vs = omega arith
length-take (suc n) [] = omega arith
length-take (suc n) (v ∷ vs) = omega (arith, length-take n vs)

pub elem-those_passed :
    (passed : List (String × GateReason)) (v : String) (vs : List String)
    → elem v (those_passed passed vs) ≡ true
    → (elem v vs ≡ true) × (has_passed passed v ≡ true)
unfolding those_passed
elem-those_passed passed v [] h = absurd (cc h)
elem-those_passed passed v (u ∷ us) h = elim (Bool-cases (has_passed passed u)) [
  | inr out ↦
      let (later, yes_v) = elem-those_passed passed v us (ground arith) in
      (ground (arith, later), yes_v)
  | inl yes_u ↦ elim (Bool-cases (str_eq v u)) [
    | inl same ↦ (ground arith, ap (has_passed passed) ((eq_iff v u).0 same) ∙ yes_u)
    | inr other ↦
        let (later, yes_v) = elem-those_passed passed v us (ground arith) in
        (ground (arith, later), yes_v)
  ]
]

pub elem-needing :
    (recompute : Bool) (profiles : Profiles) (v : String) (vs : List String)
    → elem v (needing recompute profiles vs) ≡ true
    → (elem v vs ≡ true) × ((is_evaluated (profiles v) && not recompute) ≡ false)
unfolding needing
elem-needing recompute profiles v [] h = absurd (cc h)
elem-needing recompute profiles v (u ∷ us) h =
    elim (Bool-cases (is_evaluated (profiles u) && not recompute)) [
      | inl done ↦
          let (later, due) = elem-needing recompute profiles v us (ground arith) in
          (ground (arith, later), due)
      | inr due_u ↦ elim (Bool-cases (str_eq v u)) [
        | inl same ↦ (
          ground arith,
          ap (λ x. is_evaluated (profiles x) && not recompute) ((eq_iff v u).0 same) ∙ due_u,
        )
        | inr other ↦
            let (later, due) = elem-needing recompute profiles v us (ground arith) in
            (ground (arith, later), due)
      ]
    ]
