-- ===== src/Venues/Links.antt =====
-- The data of app/services/event_venue_resolution.py, the gate of automatic links and the catalogue. A
-- score is a number of billionths, a distance a number of millimetres; a coordinate is an integer on a
-- fixed scale.
use cs_server.Prelude.{
  ℕ, ◌+◌, Bool, true, false, Option, none, some, List, [], ◌∷◌, ltb, if◌then◌else◌,
}
use cs_server.Prelude.Int.{ℤ}
use cs_server.Python.Regex.{Text}
use cs_server.Python.Round.{round_to}

pub data Method : Type 0 where
  handle_mention location_tag name_match : Method

pub data Resolution : Type 0 where
  auto queued unresolved : Resolution

abbrev pub default_confidence_floor : ℕ
default_confidence_floor = 550000000

abbrev pub default_margin : ℕ
default_margin = 80000000

abbrev pub location_tag_match_floor : ℕ
location_tag_match_floor = 850000000

pub record VenueLite : Type 0 where
  pub venue_id : Text
  pub venue_name : Text
  pub lat : Option ℤ
  pub lng : Option ℤ

pub data Evidence : Type 0 where
  mentioned : Text → Evidence
  tagged : Text → Evidence
  named : Text → ℕ → Option ℕ → Evidence

pub record LinkCandidate : Type 0 where
  pub venue_id : Text
  pub venue_name : Text
  pub method : Method
  pub score : ℕ
  pub evidence : Evidence

pub record ResolutionResult : Type 0 where
  pub resolution : Resolution
  pub venue_id : Option Text
  pub method : Option Method
  pub confidence : Option ℕ
  pub candidates : List LinkCandidate

pub record LocationTag : Type 0 where
  pub name : Option Text
  pub lat : Option ℤ
  pub lng : Option ℤ

pub data GateReason : Type 0 where
  no_candidates below_floor single_candidate_above_floor too_close clear : GateReason

-- `round(score, 4)` and `round(distance, 3)`
abbrev pub round_score : ℕ → ℕ
round_score = round_to 100000

abbrev pub round_distance : Option ℕ → Option ℕ
round_distance none = none
round_distance (some d) = some (round_to 1000 d)

unfoldable pub gate_auto_link : List LinkCandidate → ℕ → ℕ → Bool × GateReason
gate_auto_link [] floor margin = (false, no_candidates)
gate_auto_link (top ∷ []) floor margin =
    if ltb top.score floor then (false, below_floor) else (true, single_candidate_above_floor)
gate_auto_link (top ∷ runner_up ∷ rest) floor margin =
    if ltb top.score floor
    then (false, below_floor)
    else (if ltb top.score (runner_up.score + margin) then (false, too_close) else (true, clear))

-- The venues that a list of ids stands for; an id without a venue is left out.
unfoldable build_venue_catalog : (Text → Option VenueLite) → List Text → List VenueLite
build_venue_catalog get_venue [] = []
build_venue_catalog get_venue (i ∷ is) =
    let rest = build_venue_catalog get_venue is in
    elim (get_venue i) [ none ↦ rest | some v ↦ record v { venue_id = i } ∷ rest ]
