-- ===== src/Venues/Targeting/Outcome.antt =====
-- What a whole run leaves of each venue's profile.
use cs_server.Prelude.{
  str_eq_sym, String, ◌≡◌, ◌⊎◌, refl, sym, ap, subst, ◌∙◌, Bool, true, false, not, ◌&&◌, Option,
  none, some, List, [], ◌∷◌, str_eq, elem, if◌then◌else◌, Bool-cases, inl, inr, eq_iff,
}
use cs_server.Python.Except.{Result, ok, raised, and_then}
use cs_server.Python.Json.{Fields}
use cs_server.Venues.Targeting.Config.{
  excluded_category, GateReason, Gate, RunConfig, parse_event_targeting_config,
}
use cs_server.Venues.Targeting.State.{
  EventProfile, Profiles, World, Progress, keeps_tier, fresh, reason_of, is_there, is_evaluated,
  those_passed,
}
use cs_server.Venues.Targeting.{
  Report, stage_one_of, stage_one, evaluated, evaluate_one, stage_two, to_evaluate, gate_of,
  after_stage_one, report_of, chosen, run,
}
use cs_server.Venues.Targeting.Stages.{settled, given, stage_one-profile, stage_one-reason}
use cs_server.Venues.Targeting.Chosen.{elem-needing, elem-take, elem-those_passed}

module _ (w : World) (c : RunConfig) where
  pub stage_two-profile :
      (vs : List String) (v : String) (s : Progress)
      → c.dry_run ≡ false
      → (stage_two w c vs s).profiles v
        ≡ (if elem v vs then some (evaluated w c v (reason_of s.passed v)) else s.profiles v)
  unfolding stage_two
  stage_two-profile [] v s dry = refl
  stage_two-profile (u ∷ us) v s dry =
      let next = evaluate_one w c u s in
      stage_two-profile us v next dry ∙ (elim (Bool-cases (elem v us)) [
        | inl later ↦ elim (Bool-cases (str_eq v u)) [
          | inl same ↦ rw (later, same) refl
          | inr other ↦ rw (later, other) refl
        ]
        | inr gone ↦ elim (Bool-cases (str_eq v u)) [
          | inl same ↦
              let own = (eq_iff v u).0 same in
              rw (gone, same, dry, str_eq_sym u v, same)
                (ap (λ x. some (evaluated w c x (reason_of s.passed x))) (sym own))
          | inr other ↦ rw (gone, other, dry, str_eq_sym u v, other) refl
        ]
      ])

  stage_one_of-dry :
      (g : Gate) (u : String) (s : Progress)
      → c.dry_run ≡ true
      → (stage_one_of w c g u s).profiles ≡ s.profiles
  stage_one_of-dry (false, reason) u s dry = rw dry refl
  stage_one_of-dry (true, reason) u s dry = elim (Bool-cases (keeps_tier (s.profiles u))) [
    | inl e ↦ rw e refl
    | inr e ↦ rw (e, dry) refl
  ]

  pub stage_one-dry :
      (gate : String → Gate) (vs : List String) (s : Progress)
      → c.dry_run ≡ true
      → (stage_one w c gate vs s).profiles ≡ s.profiles
  unfolding stage_one
  stage_one-dry gate [] s dry = refl
  stage_one-dry gate (u ∷ us) s dry =
      stage_one-dry gate us (stage_one_of w c (gate u) u s) dry ∙ stage_one_of-dry (gate u) u s dry

  pub stage_two-dry :
      (vs : List String) (s : Progress)
      → c.dry_run ≡ true
      → (stage_two w c vs s).profiles ≡ s.profiles
  unfolding stage_two
  stage_two-dry [] s dry = refl
  stage_two-dry (u ∷ us) s dry = stage_two-dry us (evaluate_one w c u s) dry ∙ rw dry refl

-- What a run that is not dry may leave of a venue: all as it was outside the catalogue; the exclusion
-- where the gate fails; else what stage 1 settles, or the evaluation of a venue that stands in the
-- order of priority and needs one.
abbrev pub EndsAs :
    World → RunConfig → String → Bool → Gate → Option EventProfile → Option EventProfile → Type 0
EndsAs w c v false g before after = after ≡ before
EndsAs w c v true (false, reason) before after = after ≡ some (fresh excluded_category false reason)
EndsAs w c v true (true, reason) before after =
    (after ≡ settled (true, reason) before)
    ⊎ ((elem v w.by_priority ≡ true)
        × (((is_evaluated (settled (true, reason) before) && not c.recompute) ≡ false)
            × (after ≡ some (evaluated w c v (some reason)))))

module _ (w : World) (c : RunConfig) where
  skipped_ends :
      (v : String) (known : Bool) (g : Gate) (before after : Option EventProfile)
      → after ≡ (if known then settled g before else before)
      → EndsAs w c v known g before after
  skipped_ends v false g before after e = e
  skipped_ends v true (false, reason) before after e = e
  skipped_ends v true (true, reason) before after e = inl e

  chosen_ends :
      (v : String) (known : Bool) (g : Gate) (before here after : Option EventProfile)
      (r : Option GateReason)
      → here ≡ (if known then settled g before else before)
      → r ≡ (if known then given g else none)
      → is_there r ≡ true
      → elem v w.by_priority ≡ true
      → (is_evaluated here && not c.recompute) ≡ false
      → after ≡ some (evaluated w c v r)
      → EndsAs w c v known g before after
  chosen_ends v false g before here after r e f there listed due last = absurd (cc (f, there))
  chosen_ends v true (false, reason) before here after r e f there listed due last =
      absurd (cc (f, there))
  chosen_ends v true (true, reason) before here after r e f there listed due last = inr (
    listed,
    (
      ap (λ x. is_evaluated x && not c.recompute) (sym e) ∙ due,
      last ∙ ap (λ x. some (evaluated w c v x)) f,
    ),
  )

  -- The stages, given what stage 1 has left.
  ends :
      (v : String) (known : Bool) (g : Gate) (before : Option EventProfile) (s : Progress)
      → c.dry_run ≡ false
      → s.profiles v ≡ (if known then settled g before else before)
      → reason_of s.passed v ≡ (if known then given g else none)
      → EndsAs w c v known g before ((stage_two w c (to_evaluate w c s) s).profiles v)
  ends v known g before s dry e r =
      let last = stage_two-profile w c (to_evaluate w c s) v s dry in
      elim (Bool-cases (elem v (to_evaluate w c s))) [
        | inr skipped ↦
            let same : (stage_two w c (to_evaluate w c s) s).profiles v ≡ s.profiles v =
              last ∙ rw skipped refl in
            skipped_ends v known g before _ (same ∙ e)
        | inl chosen ↦
            let (listed, due) =
              elem-needing c.recompute s.profiles v (those_passed s.passed w.by_priority)
                (elem-take c.max_evidence_venues v _ chosen) in
            let (in_order, there) = elem-those_passed s.passed v w.by_priority listed in
            let same : (stage_two w c (to_evaluate w c s) s).profiles v
                ≡ some (evaluated w c v (reason_of s.passed v)) =
              last ∙ rw chosen refl in
            chosen_ends v known g before (s.profiles v) _ (reason_of s.passed v) e r there in_order
              due same
      ]

and_then-ok :
    {A B : Type 0} (r : Result A) (f : A → B) (a : A) (b : B)
    → r ≡ ok a
    → and_then r (λ x. ok (f x)) ≡ ok b
    → f a ≡ b
and_then-ok (ok x) f a b e g = cc (e, g)
and_then-ok (raised x) f a b e g = absurd (cc e)

module _ (w : World) (config : Fields) (c : RunConfig) (before after : Profiles)
    (report : Report) where
  pub run-report :
      parse_event_targeting_config config ≡ ok c
      → run w config before ≡ ok (after, report)
      → report_of w c (chosen w) before ≡ (after, report)
  unfolding run
  run-report e f =
      and_then-ok (parse_event_targeting_config config) (λ x. report_of w x (chosen w) before) c
        (after, report) e f

  -- A run that is not dry leaves a venue outside the catalogue as it was. It excludes a venue of the
  -- catalogue whose gate fails. A venue that passes keeps a profile with evidence and is else a fresh
  -- candidate, or it is evaluated: only where it stands in the order of priority, and only where that
  -- profile was not evaluated before or the run recomputes.
  pub run-EndsAs :
      (v : String)
      → parse_event_targeting_config config ≡ ok c
      → run w config before ≡ ok (after, report)
      → c.dry_run ≡ false
      → EndsAs w c v (elem v w.servable) (gate_of w (chosen w).0 v) (before v) (after v)
  unfolding reason_of
  run-EndsAs v e f dry =
      let same = ap (λ x. x.0) (run-report e f) in
      let s = after_stage_one w c (chosen w).0 before in
      let first = stage_one-profile w c (gate_of w (chosen w).0) w.servable v _ dry in
      let reason = stage_one-reason w c (gate_of w (chosen w).0) w.servable v _ in
      subst (λ x. EndsAs w c v (elem v w.servable) (gate_of w (chosen w).0 v) (before v) (x v)) same
        (ends w c v (elem v w.servable) (gate_of w (chosen w).0 v) (before v) s dry first reason)
