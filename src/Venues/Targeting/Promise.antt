-- ===== src/Venues/Targeting/Promise.antt =====
-- What a run promises of each venue, in terms of its own.
use cs_server.Prelude.{
  ℕ, ◌+◌, ◌≤◌, ◌<◌, String, ◌≡◌, ◌⊎◌, Bool, true, false, ◌||◌, Option, none, some, List, [], ◌∷◌,
  elem, str_eq, if◌then◌else◌,
}
use cs_server.Eligibility.Category.{resolve_category}
use cs_server.Eligibility.CategoryMap.{load_category_map}
use cs_server.Venues.Targeting.Config.{
  unevaluated, category_candidate, evidence_confirmed, evidence_rejected, excluded_category,
  CategoryConfig, VibeProfile, GateReason, RunConfig,
}
use cs_server.Venues.Targeting.Evidence.{caption_evidence, flyer_count}
use cs_server.Venues.Targeting.State.{EventProfile, World}

-- One of the labels is among the overrides.
abbrev pub any_among : List String → List String → Bool
any_among [] overrides = false
any_among (l ∷ ls) overrides = elem l overrides || any_among ls overrides

-- The configuration allows the category, or it lists one of the labels.
abbrev pub admits : CategoryConfig → String → VibeProfile → Bool
admits cfg shown profile =
    elem shown cfg.allowed_categories
    || any_among profile.music_format cfg.vibe_music_format_overrides
    || any_among profile.estilo_do_lugar cfg.vibe_estilo_overrides

-- The category of a venue, in capitals.
abbrev pub shown_category : World → String → String
shown_category w v =
    let (google, besttime) = load_category_map w.case w.loads w.map_read in
    let category = resolve_category w.case (w.google_type v) (w.besttime_type v) google besttime in
    w.case.upper (if str_eq category "" then "OTHER" else category)

abbrev pub is_admitted : World → CategoryConfig → String → Bool
is_admitted w cfg v = admits cfg (shown_category w v) (w.vibes v)

abbrev pub candidate : GateReason → EventProfile
candidate reason = record {
  tier = category_candidate;
  category_pass = true;
  category_reason = some reason;
  evidence_score = none;
  evidence_sample = none;
  evaluated_at = none;
}

abbrev pub excluded : GateReason → EventProfile
excluded reason = record {
  tier = excluded_category;
  category_pass = false;
  category_reason = some reason;
  evidence_score = none;
  evidence_sample = none;
  evaluated_at = none;
}

-- A venue that is admitted keeps what an evaluation has found; else it is a candidate.
abbrev pub kept : GateReason → Option EventProfile → Option EventProfile
kept reason none = some (candidate reason)
kept reason (some p) = elim p.tier [
  | evidence_confirmed ↦ some p
  | evidence_rejected ↦ some p
  | unevaluated ↦ some p
  | category_candidate ↦ some (candidate reason)
  | excluded_category ↦ some (candidate reason)
]

-- What a venue has where it is not evaluated.
abbrev pub FirstStage :
    Bool → Bool → GateReason → Option EventProfile → Option EventProfile → Type 0
FirstStage false admitted reason before after = after ≡ before
FirstStage true false reason before after = after ≡ some (excluded reason)
FirstStage true true reason before after = after ≡ kept reason before

-- The score that the evidence gives.
abbrev pub evidence_of : World → RunConfig → String → ℕ
evidence_of w c v =
    let since = w.days_before c.lookback_days in
    (flyer_count (w.archive v) since).0 + (caption_evidence w.unicode since (w.posts v)).0

-- The verdict: none without a handle; else confirmed exactly where the evidence reaches the minimum.
abbrev pub Verdict : World → RunConfig → String → EventProfile → Type 0
Verdict w c v p =
    ((w.has_instagram_handle v ≡ false) × (p.tier ≡ unevaluated) × (p.evidence_score ≡ none))
    ⊎ ((w.has_instagram_handle v ≡ true)
        × (p.evidence_score ≡ some (evidence_of w c v))
        × (((c.min_evidence_posts ≤ evidence_of w c v) × (p.tier ≡ evidence_confirmed))
            ⊎ ((evidence_of w c v < c.min_evidence_posts) × (p.tier ≡ evidence_rejected))))

-- A profile that this run's evaluation writes.
pub record IsEvaluation (w : World) (c : RunConfig) (v : String) (reason : GateReason)
    (p : EventProfile) : Type 0 where
  pub verdict : Verdict w c v p
  pub passes : p.category_pass ≡ true
  pub because : p.category_reason ≡ some reason
  pub at_now : p.evaluated_at ≡ some w.now

-- No evaluation is on record.
abbrev pub IsDue : Option EventProfile → Type 0
IsDue none = Unit
IsDue (some p) = p.evaluated_at ≡ none

-- What a venue has after a run: what the first stage gives; or, for a venue of the catalogue that is
-- admitted and stands in the order of priority, an evaluation, where none is on record or the run
-- recomputes.
abbrev pub Promise :
    World
    → RunConfig
    → String
    → Bool
    → Bool
    → GateReason
    → Option EventProfile
    → Option EventProfile
    → Type 0
Promise w c v known admitted reason before after =
    FirstStage known admitted reason before after
    ⊎ ((known ≡ true)
        × (admitted ≡ true)
        × (elem v w.by_priority ≡ true)
        × ((c.recompute ≡ true) ⊎ IsDue (kept reason before))
        × ((p : EventProfile) × ((after ≡ some p) × IsEvaluation w c v reason p)))
