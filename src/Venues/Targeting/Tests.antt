-- ===== src/Venues/Targeting/Tests.antt =====
-- The theorems on the targeting at concrete inputs, and runs.
use cs_server.Prelude.{
  length, elem, ◌⊎◌, ◌≤◌, ◌≡◌, refl, String, true, false, Option, none, some, List, [], ◌∷◌, str_eq,
  if◌then◌else◌,
}
use cs_server.Prelude.Int.{pos}
use cs_server.Python.Except.{ok, raised, value_error}
use cs_server.Python.Ascii.{ascii}
use cs_server.Python.Json.{
  Json, Fields, end, field, obj, arr, str, null, bool, int, cons, nil, codes, int_of_text,
}
use cs_server.Eligibility.Category.{Case, resolve_category, lookup}
use cs_server.Python.Regex.{search_from}
use cs_server.Venues.Markers.{matches_event_marker}
use cs_server.Venues.Targeting.Config.{
  Tier, unevaluated, evidence_confirmed, excluded_category, defaults, RunConfig, CategoryConfig,
  parse_event_targeting_config, from_dict, validate_event_candidate_categories_config, stored_form,
}
use cs_server.Venues.Targeting.Evidence.{Post}
use cs_server.Venues.Targeting.State.{EventProfile, Profiles, World}
use cs_server.Venues.Targeting.{Report, gate_of, report_of, chosen, run}
use cs_server.Venues.Targeting.Promise.{FirstStage, is_admitted, Promise}
use cs_server.Venues.Targeting.Ends.{run-Promise, run-Bounded, run-Dry}
use cs_server.Venues.Targeting.RoundTrip.{KeepsMembers, AreCapital, SameSets, validate-SameSets}

abbrev plain : Case
plain = record { strip = λ s. s; lower = λ s. s; upper = λ s. s }

-- A bar with three posts of parties, a museum, and a bar without a handle.
abbrev world : World
world = record {
  case = plain;
  unicode = ascii;
  loads = λ s. raised value_error;
  categories_read = none;
  map_read = none;
  servable = "bar" ∷ "museum" ∷ "pub" ∷ [];
  by_priority = "pub" ∷ "bar" ∷ [];
  google_type = λ v. (if str_eq v "museum" then some "museum" else some "bar");
  besttime_type = λ v. none;
  vibes = λ v. record { music_format = []; estilo_do_lugar = [] };
  has_instagram_handle = λ v. str_eq v "bar";
  posts = λ v.
      (let party : Post = record { caption = some (codes "open bar"); timestamp = none } in
        party ∷ party ∷ party ∷ []);
  archive = λ v. none;
  now = 100;
  days_before = λ n. 0;
}

abbrev config : Fields
config = field "max_evidence_venues" (int (pos 5)) (field "recompute" null end)

abbrev parsed : RunConfig
parsed = record {
  max_evidence_venues = 5;
  min_evidence_posts = 3;
  lookback_days = 60;
  recompute = false;
  dry_run = false;
}

config_run : parse_event_targeting_config config ≡ ok parsed
unfolding parse_event_targeting_config
config_run = refl

negative_run :
    parse_event_targeting_config (field "lookback_days" (str "-3") end) ≡ raised value_error
unfolding parse_event_targeting_config int_of_text
negative_run = refl

abbrev no_profiles : Profiles
no_profiles v = none

abbrev outcome : Profiles × Report
outcome = report_of world parsed (chosen world) no_profiles

outcome_run : run world config no_profiles ≡ ok outcome
unfolding run
outcome_run = refl

abbrev tier_of : Option EventProfile → Option Tier
tier_of none = none
tier_of (some p) = some p.tier

-- The bar is confirmed, the museum excluded, the pub left without evidence.
bar_run : tier_of (outcome.0 "bar") ≡ some evidence_confirmed
unfolding run matches_event_marker search_from resolve_category lookup
bar_run = refl

museum_run : tier_of (outcome.0 "museum") ≡ some excluded_category
unfolding run resolve_category lookup
museum_run = refl

pub_run : tier_of (outcome.0 "pub") ≡ some unevaluated
unfolding run resolve_category lookup
pub_run = refl

run-Promise_example :
    Promise world parsed "bar" true
      (is_admitted world (chosen world).0 "bar")
      (gate_of world (chosen world).0 "bar").1
      none
      (outcome.0 "bar")
run-Promise_example =
    run-Promise world config parsed no_profiles outcome.0 outcome.1 "bar" config_run outcome_run
      refl

run-Bounded_example :
    (vs : List String) × ((length vs ≤ 5)
      × ((outcome.1.evidence_evaluated ≡ length vs)
          × ((v : String)
              → (elem v vs ≡ true)
                ⊎ FirstStage
                    (elem v world.servable)
                    (is_admitted world (chosen world).0 v)
                    (gate_of world (chosen world).0 v).1
                    none
                    (outcome.0 v))))
run-Bounded_example =
    run-Bounded world config parsed no_profiles outcome.0 outcome.1 config_run outcome_run refl

abbrev dry_config : Fields
dry_config = field "max_evidence_venues" (int (pos 5)) (field "dry_run" (bool true) end)

abbrev parsed_dry : RunConfig
parsed_dry = record parsed { dry_run = true }

dry_config_run : parse_event_targeting_config dry_config ≡ ok parsed_dry
unfolding parse_event_targeting_config
dry_config_run = refl

abbrev dry_outcome : Profiles × Report
dry_outcome = report_of world parsed_dry (chosen world) no_profiles

dry_run : run world dry_config no_profiles ≡ ok dry_outcome
unfolding run
dry_run = refl

run-Dry_example : dry_outcome.0 ≡ no_profiles
run-Dry_example =
    run-Dry world dry_config parsed_dry no_profiles dry_outcome.0 dry_outcome.1 dry_config_run
      dry_run refl

abbrev same_list : List String → List String
same_list xs = xs

same_list-KeepsMembers : KeepsMembers same_list
same_list-KeepsMembers x xs = refl

plain-AreCapital : AreCapital plain
plain-AreCapital x h = refl

abbrev write : Json
write = obj (field "allowed_categories" (arr (cons (str "BAR") nil)) end)

abbrev only_bars : CategoryConfig
only_bars = record defaults { allowed_categories = "BAR" ∷ [] }

write_run :
    validate_event_candidate_categories_config plain same_list write
    ≡ ok (stored_form same_list only_bars)
unfolding validate_event_candidate_categories_config
write_run = refl

validate-SameSets_example :
    (a : CategoryConfig) × ((b : CategoryConfig) × ((from_dict plain write ≡ ok a)
        × ((from_dict plain (stored_form same_list only_bars) ≡ ok b) × SameSets a b)))
validate-SameSets_example =
    validate-SameSets plain same_list write (stored_form same_list only_bars) same_list-KeepsMembers
      plain-AreCapital write_run
