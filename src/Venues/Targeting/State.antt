-- ===== src/Venues/Targeting/State.antt =====
-- The profiles that a targeting run reads and writes, what else it reads, and how far it has come: the
-- state of `EventVenueTargetingService.run` of app/services/event_venue_targeting.py.
use cs_server.Prelude.{
  ℕ, String, Bool, true, false, not, ◌&&◌, Option, none, some, List, [], ◌∷◌, str_eq, if◌then◌else◌,
}
use cs_server.Python.Except.{Result}
use cs_server.Python.Json.{Json}
use cs_server.Python.Regex.{Text, Unicode}
use cs_server.Eligibility.Category.{Case}
use cs_server.Venues.Targeting.Config.{
  Tier, unevaluated, category_candidate, evidence_confirmed, evidence_rejected, excluded_category,
  VibeProfile, GateReason,
}
use cs_server.Venues.Targeting.Evidence.{Post, ArchiveRun}

pub data Sample : Type 0 where
  no_instagram_handle : Sample
  counts : ℕ → ℕ → ℕ → List Text → Sample

pub record EventProfile : Type 0 where
  pub tier : Tier
  pub category_pass : Bool
  pub category_reason : Option GateReason
  pub evidence_score : Option ℕ
  pub evidence_sample : Option Sample
  pub evaluated_at : Option ℕ

abbrev pub Profiles : Type 0
Profiles = String → Option EventProfile

-- What a run reads besides the profiles.
pub record World : Type 0 where
  pub case : Case
  pub unicode : Unicode
  pub loads : String → Result Json
  pub categories_read : Option (Result (Option String))
  pub map_read : Option (Result (Option String))
  pub servable : List String
  pub by_priority : List String
  pub google_type : String → Option String
  pub besttime_type : String → Option String
  pub vibes : String → VibeProfile
  pub has_instagram_handle : String → Bool
  pub posts : String → List Post
  pub archive : String → Option (Result (List ArchiveRun))
  pub now : ℕ
  pub days_before : ℕ → ℕ

-- What the run has reached: the profiles, the venues that passed with their reasons, and the changes.
pub record Progress : Type 0 where
  pub profiles : Profiles
  pub passed : List (String × GateReason)
  pub tier_changes : List (String × Tier)

abbrev pub keeps_tier : Option EventProfile → Bool
keeps_tier none = false
keeps_tier (some p) = elim p.tier [
  | evidence_confirmed ↦ true
  | evidence_rejected ↦ true
  | unevaluated ↦ true
  | category_candidate ↦ false
  | excluded_category ↦ false
]

-- A profile of stage 1.
abbrev pub fresh : Tier → Bool → GateReason → EventProfile
fresh tier pass reason = record {
  tier = tier;
  category_pass = pass;
  category_reason = some reason;
  evidence_score = none;
  evidence_sample = none;
  evaluated_at = none;
}

unfoldable pub reason_of : List (String × GateReason) → String → Option GateReason
reason_of [] v = none
reason_of ((w, r) ∷ rest) v = let later = reason_of rest v in if str_eq w v then some r else later

abbrev pub is_there {ℓ} : {A : Type ℓ} → Option A → Bool
is_there none = false
is_there (some a) = true

abbrev pub has_passed : List (String × GateReason) → String → Bool
has_passed passed v = is_there (reason_of passed v)

-- A set of venues: one that is there stays where it is.
abbrev pub add_passed :
    String → GateReason → List (String × GateReason) → List (String × GateReason)
add_passed v r passed = if has_passed passed v then passed else (v, r) ∷ passed

unfoldable pub those_passed : List (String × GateReason) → List String → List String
unfolding reason_of
those_passed passed [] = []
those_passed passed (v ∷ vs) =
    let rest = those_passed passed vs in if has_passed passed v then v ∷ rest else rest

-- Whether the profile was evaluated.
abbrev pub is_evaluated : Option EventProfile → Bool
is_evaluated none = false
is_evaluated (some p) = is_there p.evaluated_at

unfoldable pub needing : Bool → Profiles → List String → List String
needing recompute profiles [] = []
needing recompute profiles (v ∷ vs) =
    let rest = needing recompute profiles vs in
    if is_evaluated (profiles v) && not recompute then rest else v ∷ rest
