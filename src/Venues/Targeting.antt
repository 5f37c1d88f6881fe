-- ===== src/Venues/Targeting.antt =====
-- `EventVenueTargetingService.run` of app/services/event_venue_targeting.py over the store of profiles.
-- What else it reads (venues, labels, handles, posts, archives) is an argument. The gauge of the
-- candidates is left out.
pub mod Config
pub mod Evidence
pub mod State
pub mod Stages
pub mod Chosen
pub mod Outcome
pub mod Promise
pub mod Ends
pub mod RoundTrip
mod Tests
use cs_server.Prelude.{
  ℕ, ◌+◌, String, Bool, true, false, not, ◌&&◌, ◌||◌, Option, none, some, List, [], ◌∷◌, ◌++◌, map,
  str_eq, elem, length, update, if◌then◌else◌,
}
use cs_server.Python.Except.{Result, ok, and_then}
use cs_server.Python.Json.{Json, Fields}
use cs_server.Python.Regex.{Text, Unicode}
use cs_server.Eligibility.Categories.{Table}
use cs_server.Eligibility.Category.{Case, resolve_category}
use cs_server.Eligibility.CategoryMap.{load_category_map}
use cs_server.Venues.Targeting.Config.{
  Tier, unevaluated, category_candidate, evidence_confirmed, evidence_rejected, excluded_category,
  CategoryConfig, Fallback, load_event_candidate_categories, VibeProfile, GateReason, Gate,
  category_gate, RunConfig, parse_event_targeting_config,
}
use cs_server.Venues.Targeting.Evidence.{
  Post, ArchiveRun, evidence_verdict, take, caption_evidence, flyer_count,
}
use cs_server.Venues.Targeting.State.{
  EventProfile, Profiles, Progress, Sample, World, add_passed, counts, fresh, has_passed,
  is_evaluated, is_there, keeps_tier, needing, no_instagram_handle, reason_of, those_passed,
}

module _ (w : World) (c : RunConfig) where
  -- `upsert_venue_event_profile`, unless the run is dry.
  abbrev upsert : String → EventProfile → Profiles → Profiles
  upsert v p profiles = if c.dry_run then profiles else update profiles v (some p)

  abbrev pub stage_one_of : Gate → String → Progress → Progress
  stage_one_of (false, reason) v s = record s {
    profiles = upsert v (fresh excluded_category false reason) s.profiles;
    tier_changes = s.tier_changes ++ (v, excluded_category) ∷ [];
  }
  stage_one_of (true, reason) v s =
      let known = record s { passed = add_passed v reason s.passed } in
      if keeps_tier (s.profiles v) then known else record known {
        profiles = upsert v (fresh category_candidate true reason) s.profiles;
        tier_changes = s.tier_changes ++ (v, category_candidate) ∷ [];
      }

  -- Stage 1 over a catalogue, with the gate of each venue.
  unfoldable pub stage_one : (String → Gate) → List String → Progress → Progress
  unfolding reason_of
  stage_one gate [] s = s
  stage_one gate (v ∷ vs) s = stage_one gate vs (stage_one_of (gate v) v s)

  -- The profile of a venue that stage 2 evaluates.
  unfoldable pub evaluated : String → Option GateReason → EventProfile
  unfolding flyer_count caption_evidence evidence_verdict
  evaluated v reason =
      let since = w.days_before c.lookback_days in
      let (flyers, flyer_samples) = flyer_count (w.archive v) since in
      let (captions, caption_samples) = caption_evidence w.unicode since (w.posts v) in
      let score = flyers + captions in
      if w.has_instagram_handle v
      then record {
        tier = evidence_verdict score c.min_evidence_posts;
        category_pass = true;
        category_reason = reason;
        evidence_score = some score;
        evidence_sample =
            some
              (counts flyers captions c.lookback_days (take 5 (flyer_samples ++ caption_samples)));
        evaluated_at = some w.now;
      }
      else record {
        tier = unevaluated;
        category_pass = true;
        category_reason = reason;
        evidence_score = none;
        evidence_sample = some no_instagram_handle;
        evaluated_at = some w.now;
      }

  abbrev pub evaluate_one : String → Progress → Progress
  evaluate_one v s =
      let p = evaluated v (reason_of s.passed v) in
      record s {
        profiles = upsert v p s.profiles;
        tier_changes = s.tier_changes ++ (v, p.tier) ∷ [];
      }

  unfoldable pub stage_two : List String → Progress → Progress
  unfolding evaluated reason_of
  stage_two [] s = s
  stage_two (v ∷ vs) s = stage_two vs (evaluate_one v s)

  -- The venues that stage 2 evaluates: in the order of priority, of those that passed, the first ones
  -- that need it.
  abbrev pub to_evaluate : Progress → List String
  to_evaluate s =
      take c.max_evidence_venues
        (needing c.recompute s.profiles (those_passed s.passed w.by_priority))

pub record Report : Type 0 where
  pub catalog_size : ℕ
  pub category_pass : ℕ
  pub evidence_evaluated : ℕ
  pub tier_changes : List (String × Tier)
  pub dry_run : Bool
  pub config_fallback : Option Fallback

module _ (w : World) where
  abbrev maps : Table × Table
  maps = load_category_map w.case w.loads w.map_read

  -- The gate of a venue under a configuration of the categories.
  abbrev pub gate_of : CategoryConfig → String → Gate
  gate_of cfg v =
      category_gate w.case
        (resolve_category w.case (w.google_type v) (w.besttime_type v) maps.0 maps.1) (w.vibes v)
        cfg

  -- The configuration of the categories, and why it is the shipped one.
  abbrev pub chosen : CategoryConfig × Option Fallback
  chosen = load_event_candidate_categories w.case w.loads w.categories_read

  abbrev pub after_stage_one : RunConfig → CategoryConfig → Profiles → Progress
  after_stage_one c cfg profiles =
      stage_one w c (gate_of cfg) w.servable
        (record { profiles = profiles; passed = []; tier_changes = [] })

  abbrev pub both_stages : RunConfig → CategoryConfig → Profiles → Progress
  both_stages c cfg profiles =
      let s = after_stage_one c cfg profiles in stage_two w c (to_evaluate w c s) s

  abbrev pub report_of : RunConfig → CategoryConfig × Option Fallback → Profiles → Profiles × Report
  report_of c (cfg, fallback) profiles =
      let s = after_stage_one c cfg profiles in
      let out = both_stages c cfg profiles in
      (
        out.profiles,
        record {
          catalog_size = length w.servable;
          category_pass = length s.passed;
          evidence_evaluated = length (to_evaluate w c s);
          tier_changes = out.tier_changes;
          dry_run = c.dry_run;
          config_fallback = fallback;
        },
      )

  unfoldable pub run : Fields → Profiles → Result (Profiles × Report)
  unfolding parse_event_targeting_config load_event_candidate_categories stage_one those_passed
      needing stage_two category_gate load_category_map
  run config profiles =
      and_then (parse_event_targeting_config config) λ c. ok (report_of c chosen profiles)
