-- ===== src/Eligibility/Evaluate.antt =====
-- `evaluate` of app/services/venue_eligibility.py: the block-list policy.
use cs_server.Prelude.{
  ℕ, String, Bool, true, false, not, ◌&&◌, ◌||◌, Option, none, some, List, [], ◌∷◌, ◌==◌, str_eq,
  elem, if◌then◌else◌,
}
use cs_server.Python.Json.{codes}
use cs_server.Eligibility.Categories.{google_to_category, besttime_to_category}
use cs_server.Eligibility.Defaults.{
  default_blocked_venue_types, default_blocked_google_types, default_hard_blocked_name_keywords,
  default_ambiguous_name_keywords,
}
use cs_server.Eligibility.Category.{Case, or_none, resolve_category}

pub record EligibilityConfig : Type 0 where
  pub blocked_venue_types : List String
  pub blocked_google_types : List String
  pub hard_blocked_name_keywords : List String
  pub ambiguous_name_keywords : List String
  pub from_admin_override : Bool

abbrev pub defaults : EligibilityConfig
defaults = record {
  blocked_venue_types = default_blocked_venue_types;
  blocked_google_types = default_blocked_google_types;
  hard_blocked_name_keywords = default_hard_blocked_name_keywords;
  ambiguous_name_keywords = default_ambiguous_name_keywords;
  from_admin_override = false;
}

pub data Reason : Type 0 where
  ineligible_empty_name ineligible_name_keyword ineligible_besttime_type ineligible_google_type :
      Reason

pub data Confidence : Type 0 where
  high low : Confidence

pub record EligibilityResult : Type 0 where
  pub eligible : Bool
  pub reason : Option Reason
  pub confidence : Confidence

abbrev pub is_high : Confidence → Bool
is_high high = true
is_high low = false

abbrev pub soft_deletable : EligibilityResult → Bool
soft_deletable r = not r.eligible && is_high r.confidence

abbrev pub eligible_venue : EligibilityResult
eligible_venue = record { eligible = true; reason = none; confidence = high }

abbrev pub refused : Reason → Confidence → EligibilityResult
refused reason confidence = record {
  eligible = false;
  reason = some reason;
  confidence = confidence;
}

-- `part in text`, on code points.
unfoldable pub begins : List ℕ → List ℕ → Bool
begins [] cs = true
begins (p ∷ ps) [] = false
begins (p ∷ ps) (c ∷ cs) = p == c && begins ps cs

unfoldable pub occurs : List ℕ → List ℕ → Bool
unfolding begins
occurs ps [] = begins ps []
occurs ps (c ∷ cs) = begins ps (c ∷ cs) || occurs ps cs

unfoldable pub matches_keyword : String → List String → Bool
unfolding occurs
matches_keyword name [] = false
matches_keyword name (kw ∷ kws) = occurs (codes kw) (codes name) || matches_keyword name kws

-- `(text or "").strip()`
abbrev pub or_empty : Option String → String
or_empty none = ""
or_empty (some t) = t

-- A type that is there and on the list.
abbrev pub is_blocked : Option String → List String → Bool
is_blocked none blocked = false
is_blocked (some t) blocked = elem t blocked

abbrev pub is_some : Option String → Bool
is_some none = false
is_some (some t) = true

abbrev pub config_or_default : Option EligibilityConfig → EligibilityConfig
config_or_default none = defaults
config_or_default (some c) = c

module _ (case : Case) where
  unfoldable pub has_good_category : Option String → Option String → Bool
  has_good_category gtype btype =
      not
        (str_eq (resolve_category case gtype btype google_to_category besttime_to_category) "OTHER")

  -- The name, the Google type and the BestTime type in the form that the rules compare.
  abbrev pub name_of : Option String → String
  name_of venue_name = case.strip (or_empty venue_name)

  abbrev pub google_type_of : Option String → Option String
  google_type_of google_type = or_none (some (case.lower (case.strip (or_empty google_type))))

  abbrev pub besttime_type_of : Option String → Option String
  besttime_type_of besttime_type = or_none (some (case.upper (case.strip (or_empty besttime_type))))

  -- The rules on the name's keywords.
  abbrev pub judge_keywords : String → Option String → Bool → EligibilityConfig → EligibilityResult
  judge_keywords name gtype good_category cfg =
      if matches_keyword (case.lower name) cfg.hard_blocked_name_keywords
      then (if good_category then eligible_venue else refused ineligible_name_keyword high)
      else (if matches_keyword (case.lower name) cfg.ambiguous_name_keywords
          then (if good_category
              then eligible_venue
              else (if is_some gtype
                  then refused ineligible_name_keyword high
                  else refused ineligible_name_keyword low))
          else eligible_venue)

  unfoldable pub evaluate :
      Option String → Option String → Option String → Option EligibilityConfig → EligibilityResult
  evaluate venue_name besttime_type google_type config =
      let cfg = config_or_default config in
      let name = name_of venue_name in
      let gtype = google_type_of google_type in
      let btype = besttime_type_of besttime_type in
      if str_eq name ""
      then refused ineligible_empty_name high
      else (if is_blocked gtype cfg.blocked_google_types
          then refused ineligible_google_type high
          else (if is_blocked btype cfg.blocked_venue_types
              then refused ineligible_besttime_type high
              else judge_keywords name gtype (has_good_category gtype btype) cfg))
