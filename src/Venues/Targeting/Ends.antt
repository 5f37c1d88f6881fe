-- ===== src/Venues/Targeting/Ends.antt =====
-- Each run keeps its promise.
use cs_server.Prelude.{
  ℕ, ◌≤◌, ◌<◌, String, ◌≡◌, ◌⊎◌, refl, sym, ap, ◌∙◌, subst, inl, inr, Bool, true, false, not, ◌&&◌,
  ◌||◌, Option, none, some, List, [], ◌∷◌, elem, leb, length, arith, if◌then◌else◌, Bool-cases,
  str_eq,
}
use cs_server.Python.Except.{ok}
use cs_server.Python.Json.{Fields}
use cs_server.Eligibility.Category.{Case}
use cs_server.Venues.Targeting.Config.{
  unevaluated, category_candidate, evidence_confirmed, evidence_rejected, excluded_category,
  CategoryConfig, VibeProfile, GateReason, Gate, RunConfig, first_label, by_vibes, category_gate,
  parse_event_targeting_config,
}
use cs_server.Venues.Targeting.Evidence.{evidence_verdict}
use cs_server.Venues.Targeting.State.{
  EventProfile, Profiles, World, reason_of, is_evaluated, is_there, needing, those_passed,
}
use cs_server.Venues.Targeting.{
  Report, evaluated, gate_of, chosen, run, to_evaluate, after_stage_one, both_stages,
}
use cs_server.Venues.Targeting.Stages.{settled, stage_one-profile}
use cs_server.Venues.Targeting.Chosen.{length-take}
use cs_server.Venues.Targeting.Outcome.{
  EndsAs, run-EndsAs, run-report, stage_two-profile, stage_one-dry, stage_two-dry,
}
use cs_server.Venues.Targeting.Promise.{
  any_among, admits, is_admitted, kept, FirstStage, evidence_of, Verdict, IsEvaluation, IsDue,
  Promise,
}

first_label-any_among :
    (labels overrides : List String)
    → is_there (first_label labels overrides) ≡ any_among labels overrides
unfolding first_label
first_label-any_among [] overrides = refl
first_label-any_among (l ∷ ls) overrides = elim (Bool-cases (elem l overrides)) [
  | inl e ↦ rw e refl
  | inr e ↦ rw e (first_label-any_among ls overrides)
]

by_vibes-passes :
    (music estilo : Option String) (shown : String)
    → (by_vibes music estilo shown).0 ≡ (is_there music || is_there estilo)
by_vibes-passes (some l) estilo shown = refl
by_vibes-passes none (some l) shown = refl
by_vibes-passes none none shown = refl

-- The gate lets pass what the configuration admits.
category_gate-admits :
    (case : Case) (cat : String) (profile : VibeProfile) (cfg : CategoryConfig)
    → (category_gate case cat profile cfg).0
      ≡ admits cfg (case.upper (if str_eq cat "" then "OTHER" else cat)) profile
unfolding category_gate
category_gate-admits case cat profile cfg =
    let shown = case.upper (if str_eq cat "" then "OTHER" else cat) in
    let music = first_label-any_among profile.music_format cfg.vibe_music_format_overrides in
    let estilo = first_label-any_among profile.estilo_do_lugar cfg.vibe_estilo_overrides in
    elim (Bool-cases (elem shown cfg.allowed_categories)) [
      | inl e ↦ rw e refl
      | inr e ↦ rw e (
          by_vibes-passes (first_label profile.music_format cfg.vibe_music_format_overrides)
            (first_label profile.estilo_do_lugar cfg.vibe_estilo_overrides) shown
          ∙ rw (music, estilo) refl)
    ]

gate_of-admitted :
    (w : World) (cfg : CategoryConfig) (v : String) → (gate_of w cfg v).0 ≡ is_admitted w cfg v
gate_of-admitted w cfg v = category_gate-admits w.case _ (w.vibes v) cfg

none-absent : (o : Option ℕ) → (is_there o && true) ≡ false → o ≡ none
none-absent none h = refl
none-absent (some n) h = absurd (cc h)

-- What stage 1 settles for a venue that passes.
settled-kept :
    (reason : GateReason) (before : Option EventProfile)
    → settled (true, reason) before ≡ kept reason before
settled-kept reason none = refl
settled-kept reason (some p) =
    elim p.tier
      as (λ t.
        settled (true, reason) (some (record p { tier = t }))
        ≡ kept reason (some (record p { tier = t }))) [
          | evidence_confirmed ↦ refl
          | evidence_rejected ↦ refl
          | unevaluated ↦ refl
          | category_candidate ↦ refl
          | excluded_category ↦ refl
        ]

is_due :
    (recompute : Bool) (p : Option EventProfile)
    → (is_evaluated p && not recompute) ≡ false
    → (recompute ≡ true) ⊎ IsDue p
is_due true p h = inl refl
is_due false none h = inr tt
is_due false (some p) h = inr (none-absent p.evaluated_at h)

verdict_of :
    (least score : ℕ)
    → ((least ≤ score) × (evidence_verdict score least ≡ evidence_confirmed))
      ⊎ ((score < least) × (evidence_verdict score least ≡ evidence_rejected))
unfolding evidence_verdict
verdict_of least score = elim (Bool-cases (leb least score)) [
  | inl enough ↦ inl (ground arith, rw enough refl)
  | inr short ↦ inr (ground arith, rw short refl)
]

evaluated-Verdict :
    (w : World) (c : RunConfig) (v : String) (reason : Option GateReason)
    → Verdict w c v (evaluated w c v reason)
unfolding evaluated evidence_verdict
evaluated-Verdict w c v reason = elim (Bool-cases (w.has_instagram_handle v)) [
  | inr without ↦ rw without (inl (refl, refl, refl))
  | inl handle ↦ rw handle (inr (refl, refl, verdict_of c.min_evidence_posts (evidence_of w c v)))
]

evaluated-IsEvaluation :
    (w : World) (c : RunConfig) (v : String) (reason : GateReason)
    → IsEvaluation w c v reason (evaluated w c v (some reason))
unfolding evaluated
evaluated-IsEvaluation w c v reason = elim (Bool-cases (w.has_instagram_handle v)) [
  | inl e ↦ record {
    verdict = evaluated-Verdict w c v (some reason);
    passes = rw e refl;
    because = rw e refl;
    at_now = rw e refl;
  }
  | inr e ↦ record {
    verdict = evaluated-Verdict w c v (some reason);
    passes = rw e refl;
    because = rw e refl;
    at_now = rw e refl;
  }
]

first_stage :
    (known : Bool) (g : Gate) (before after : Option EventProfile)
    → after ≡ (if known then settled g before else before)
    → FirstStage known g.0 g.1 before after
first_stage false (b, reason) before after h = h
first_stage true (false, reason) before after h = h
first_stage true (true, reason) before after h = h ∙ settled-kept reason before

promised :
    (w : World) (c : RunConfig) (v : String) (known : Bool) (g : Gate)
    (before after : Option EventProfile)
    → EndsAs w c v known g before after
    → Promise w c v known g.0 g.1 before after
promised w c v false g before after h = inl h
promised w c v true (false, reason) before after h = inl h
promised w c v true (true, reason) before after (inl h) = inl (h ∙ settled-kept reason before)
promised w c v true (true, reason) before after (inr (listed, (due, h))) = inr (
  refl,
  refl,
  listed,
  is_due c.recompute (kept reason before)
      (subst (λ p. (is_evaluated p && not c.recompute) ≡ false) (settled-kept reason before) due),
  (evaluated w c v (some reason), (h, evaluated-IsEvaluation w c v reason)),
)

module _ (w : World) (config : Fields) (c : RunConfig) (before after : Profiles)
    (report : Report) where
  -- A run that is not dry leaves a venue outside the catalogue as it was, and excludes one of the
  -- catalogue that the configuration does not admit, whatever its profile held. One that is admitted
  -- keeps the profile that an evaluation wrote and is else a fresh candidate; or it is evaluated: only
  -- where it stands in the order of priority, and only where no evaluation is on record or the run
  -- recomputes. An evaluation confirms a venue with a handle exactly where its flyers and captions
  -- reach the minimum, rejects it below, and leaves one without a handle open.
  pub run-Promise :
      (v : String)
      → parse_event_targeting_config config ≡ ok c
      → run w config before ≡ ok (after, report)
      → c.dry_run ≡ false
      → Promise w c v
          (elem v w.servable)
          (is_admitted w (chosen w).0 v)
          (gate_of w (chosen w).0 v).1
          (before v)
          (after v)
  run-Promise v e f dry =
      let g = gate_of w (chosen w).0 v in
      subst (λ b. Promise w c v (elem v w.servable) b g.1 (before v) (after v))
        (gate_of-admitted w (chosen w).0 v)
        (promised w c v (elem v w.servable) g (before v) (after v)
          (run-EndsAs w config c before after report v e f dry))

  bounded_at :
      (cfg : CategoryConfig) (v : String)
      → c.dry_run ≡ false
      → (both_stages w c cfg before).profiles v ≡ after v
      → (elem v (to_evaluate w c (after_stage_one w c cfg before)) ≡ true)
        ⊎ FirstStage
            (elem v w.servable)
            (is_admitted w cfg v)
            (gate_of w cfg v).1
            (before v)
            (after v)
  unfolding reason_of
  bounded_at cfg v dry same =
      let s = after_stage_one w c cfg before in
      let first = stage_one-profile w c (gate_of w cfg) w.servable v _ dry in
      let last = stage_two-profile w c (to_evaluate w c s) v s dry in
      elim (Bool-cases (elem v (to_evaluate w c s))) [
        | inl taken ↦ inl taken
        | inr left ↦
            let here : (both_stages w c cfg before).profiles v ≡ s.profiles v =
              last ∙ rw left refl in
            inr (
              subst (λ b. FirstStage (elem v w.servable) b (gate_of w cfg v).1 (before v) (after v))
                (gate_of-admitted w cfg v)
                (first_stage (elem v w.servable) (gate_of w cfg v) (before v) (after v)
                  (sym same ∙ (here ∙ first))))
      ]

  -- A run that is not dry evaluates at most `max_evidence_venues` venues, and reports how many: there
  -- is a list of so many venues such that each other venue has what the first stage gives it.
  pub run-Bounded :
      parse_event_targeting_config config ≡ ok c
      → run w config before ≡ ok (after, report)
      → c.dry_run ≡ false
      → (vs : List String) × ((length vs ≤ c.max_evidence_venues)
          × ((report.evidence_evaluated ≡ length vs)
              × ((v : String)
                  → (elem v vs ≡ true)
                    ⊎ FirstStage
                        (elem v w.servable)
                        (is_admitted w (chosen w).0 v)
                        (gate_of w (chosen w).0 v).1
                        (before v)
                        (after v))))
  run-Bounded e f dry =
      let cfg = (chosen w).0 in
      let s = after_stage_one w c cfg before in
      let same = run-report w config c before after report e f in
      (
        to_evaluate w c s,
        (
          length-take c.max_evidence_venues
              (needing c.recompute s.profiles (those_passed s.passed w.by_priority)),
          (
            ap (λ x. x.1.evidence_evaluated) (sym same),
            λ v. bounded_at cfg v dry (ap (λ x. x.0 v) same),
          ),
        ),
      )

  -- A dry run changes no profile.
  pub run-Dry :
      parse_event_targeting_config config ≡ ok c
      → run w config before ≡ ok (after, report)
      → c.dry_run ≡ true
      → after ≡ before
  run-Dry e f dry =
      let s = after_stage_one w c (chosen w).0 before in
      sym (ap (λ x. x.0) (run-report w config c before after report e f))
      ∙ (stage_two-dry w c (to_evaluate w c s) s dry
          ∙ stage_one-dry w c (gate_of w (chosen w).0) w.servable _ dry)
