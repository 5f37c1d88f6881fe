-- ===== src/Venues/Targeting/Stages.antt =====
-- What the two stages leave of each venue's profile.
use cs_server.Prelude.{
  str_eq_sym, String, ◌≡◌, refl, sym, ap, ◌∙◌, Bool, true, false, Option, none, some, List, [], ◌∷◌,
  str_eq, elem, if◌then◌else◌, Bool-cases, Option-cases, inl, inr, arith, eq_iff,
}
use cs_server.Venues.Targeting.Config.{
  category_candidate, excluded_category, GateReason, Gate, RunConfig,
}
use cs_server.Venues.Targeting.State.{
  EventProfile, World, Progress, keeps_tier, fresh, reason_of, add_passed,
}
use cs_server.Venues.Targeting.{stage_one_of, stage_one}

-- The profile that stage 1 leaves of a venue of the catalogue.
abbrev pub settled : Gate → Option EventProfile → Option EventProfile
settled (false, reason) p = some (fresh excluded_category false reason)
settled (true, reason) p = if keeps_tier p then p else some (fresh category_candidate true reason)

settled_again : (g : Gate) (p : Option EventProfile) → settled g (settled g p) ≡ settled g p
settled_again (false, reason) p = refl
settled_again (true, reason) p = elim (Bool-cases (keeps_tier p)) [
  | inl e ↦ rw (e, e) refl
  | inr e ↦ rw e refl
]

abbrev first_reason : Option GateReason → Option GateReason → Option GateReason
first_reason none b = b
first_reason (some a) b = some a

-- The reason of a gate that passes.
abbrev pub given : Gate → Option GateReason
given (false, reason) = none
given (true, reason) = some reason

first_reason-none : (a : Option GateReason) → first_reason a none ≡ a
first_reason-none none = refl
first_reason-none (some a) = refl

first_reason-again :
    (a b : Option GateReason) (y : Bool)
    → first_reason (first_reason a b) (if y then b else none) ≡ first_reason a b
first_reason-again none none true = refl
first_reason-again none none false = refl
first_reason-again none (some b) y = refl
first_reason-again (some a) b y = refl

add_passed-reason :
    (u v : String) (r : GateReason) (passed : List (String × GateReason))
    → reason_of (add_passed u r passed) v
      ≡ first_reason (reason_of passed v) (if str_eq u v then some r else none)
unfolding reason_of
add_passed-reason u v r passed = elim (Option-cases (reason_of passed u)) [
  | inl gone ↦ elim (Bool-cases (str_eq u v)) [
    | inl same ↦
        let here : reason_of passed v ≡ none =
          ap (reason_of passed) (sym ((eq_iff u v).0 same)) ∙ gone in
        rw (gone, here, same) refl
    | inr other ↦ rw (gone, other, first_reason-none (reason_of passed v)) refl
  ]
  | inr (q, there) ↦ elim (Bool-cases (str_eq u v)) [
    | inl same ↦
        let here : reason_of passed v ≡ some q =
          ap (reason_of passed) (sym ((eq_iff u v).0 same)) ∙ there in
        rw (there, here) refl
    | inr other ↦ rw (there, other, first_reason-none (reason_of passed v)) refl
  ]
]

module _ (w : World) (c : RunConfig) where
  stage_one_of-profile :
      (g : Gate) (u v : String) (s : Progress)
      → c.dry_run ≡ false
      → (stage_one_of w c g u s).profiles v
        ≡ (if str_eq u v then settled g (s.profiles v) else s.profiles v)
  stage_one_of-profile (false, reason) u v s dry = rw dry refl
  stage_one_of-profile (true, reason) u v s dry = elim (Bool-cases (str_eq u v)) [
    | inl same ↦
        let kept : keeps_tier (s.profiles u) ≡ keeps_tier (s.profiles v) =
          ap (λ x. keeps_tier (s.profiles x)) ((eq_iff u v).0 same) in
        elim (Bool-cases (keeps_tier (s.profiles v))) [
          | inl e ↦ rw (kept, e, same) refl
          | inr e ↦ rw (kept, e, dry, same) refl
        ]
    | inr other ↦ elim (Bool-cases (keeps_tier (s.profiles u))) [
      | inl e ↦ rw (e, other) refl
      | inr e ↦ rw (e, dry, other) refl
    ]
  ]

  -- Stage 1 leaves each venue of the catalogue the profile that its gate settles, and no other one
  -- changes.
  pub stage_one-profile :
      (gate : String → Gate) (vs : List String) (v : String) (s : Progress)
      → c.dry_run ≡ false
      → (stage_one w c gate vs s).profiles v
        ≡ (if elem v vs then settled (gate v) (s.profiles v) else s.profiles v)
  unfolding stage_one
  stage_one-profile gate [] v s dry = refl
  stage_one-profile gate (u ∷ us) v s dry =
      let next = stage_one_of w c (gate u) u s in
      stage_one-profile gate us v next dry ∙ (elim (Bool-cases (str_eq u v)) [
        | inr other ↦
            let left : next.profiles v ≡ s.profiles v =
              stage_one_of-profile (gate u) u v s dry ∙ rw other refl in
            rw (left, str_eq_sym v u, other) refl
        | inl same ↦
            let left : next.profiles v ≡ settled (gate v) (s.profiles v) =
              stage_one_of-profile (gate u) u v s dry
              ∙ (rw same (ap (λ x. settled (gate x) (s.profiles v)) ((eq_iff u v).0 same))) in
            elim (Bool-cases (elem v us)) [
              | inl e ↦ rw (left, str_eq_sym v u, same, e) (settled_again (gate v) (s.profiles v))
              | inr e ↦ rw (left, str_eq_sym v u, same, e) refl
            ]
      ])

  stage_one_of-reason :
      (g : Gate) (u v : String) (s : Progress)
      → reason_of (stage_one_of w c g u s).passed v
        ≡ first_reason (reason_of s.passed v) (if str_eq u v then given g else none)
  stage_one_of-reason (false, reason) u v s = elim (Option-cases (reason_of s.passed v)) [
    | inl e ↦ ground (arith, e)
    | inr (r, e) ↦ rw e refl
  ]
  stage_one_of-reason (true, reason) u v s = elim (Bool-cases (keeps_tier (s.profiles u))) [
    | inl e ↦ rw e (add_passed-reason u v reason s.passed)
    | inr e ↦ rw e (add_passed-reason u v reason s.passed)
  ]

  -- A venue has passed where it did before, and where it is of the catalogue and its gate says so,
  -- with the reason that this gives.
  pub stage_one-reason :
      (gate : String → Gate) (vs : List String) (v : String) (s : Progress)
      → reason_of (stage_one w c gate vs s).passed v
        ≡ first_reason (reason_of s.passed v) (if elem v vs then given (gate v) else none)
  unfolding stage_one
  stage_one-reason gate [] v s = sym (first_reason-none (reason_of s.passed v))
  stage_one-reason gate (u ∷ us) v s =
      let next = stage_one_of w c (gate u) u s in
      let step = stage_one_of-reason (gate u) u v s in
      stage_one-reason gate us v next ∙ (elim (Bool-cases (str_eq u v)) [
        | inr other ↦
            rw (step, str_eq_sym v u, other, first_reason-none (reason_of s.passed v)) refl
        | inl same ↦
            let own : given (gate u) ≡ given (gate v) =
              ap (λ x. given (gate x)) ((eq_iff u v).0 same) in
            rw (step, str_eq_sym v u, same, own)
              (first_reason-again (reason_of s.passed v) (given (gate v)) (elem v us))
      ])
