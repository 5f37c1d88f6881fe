-- ===== src/Eligibility/Policy.antt =====
-- The block-list policy of `evaluate`, stated without its order of checks.
use cs_server.Prelude.{String, ◌≡◌, Bool, not, ◌&&◌, ◌||◌, Option, arith, str_eq, if◌then◌else◌}
use cs_server.Eligibility.Category.{Case}
use cs_server.Eligibility.Evaluate.{
  EligibilityConfig, EligibilityResult, refused, eligible_venue, high, low, ineligible_empty_name,
  ineligible_google_type, ineligible_besttime_type, ineligible_name_keyword, soft_deletable,
  matches_keyword, is_blocked, is_some, config_or_default, has_good_category, name_of,
  google_type_of, besttime_type_of, evaluate,
}

-- What the policy looks at.
pub record Signals : Type 0 where
  pub named : Bool
  pub blocked_type : Bool
  pub good_category : Bool
  pub hard_keyword : Bool
  pub ambiguous_keyword : Bool
  pub labeled : Bool

abbrev pub signals_of :
    Case → Option String → Option String → Option String → Option EligibilityConfig → Signals
signals_of case venue_name besttime_type google_type config =
    let cfg = config_or_default config in
    let name = name_of case venue_name in
    let gtype = google_type_of case google_type in
    let btype = besttime_type_of case besttime_type in
    record {
      named = not (str_eq name "");
      blocked_type =
          is_blocked gtype cfg.blocked_google_types || is_blocked btype cfg.blocked_venue_types;
      good_category = has_good_category case gtype btype;
      hard_keyword = matches_keyword (case.lower name) cfg.hard_blocked_name_keywords;
      ambiguous_keyword = matches_keyword (case.lower name) cfg.ambiguous_name_keywords;
      labeled = is_some gtype;
    }

-- The checks in their order, on what they find.
in_order : Bool → Bool → Bool → Bool → Bool → Bool → Bool → EligibilityResult
in_order unnamed google besttime good hard ambiguous label =
    if unnamed
    then refused ineligible_empty_name high
    else (if google
        then refused ineligible_google_type high
        else (if besttime
            then refused ineligible_besttime_type high
            else (if hard
                then (if good then eligible_venue else refused ineligible_name_keyword high)
                else (if ambiguous
                    then (if good
                        then eligible_venue
                        else (if label
                            then refused ineligible_name_keyword high
                            else refused ineligible_name_keyword low))
                    else eligible_venue))))

in_order-eligible :
    (unnamed google besttime good hard ambiguous label : Bool)
    → (in_order unnamed google besttime good hard ambiguous label).eligible
      ≡ (not unnamed && not (google || besttime) && (good || not (hard || ambiguous)))
unfolding in_order
in_order-eligible unnamed google besttime good hard ambiguous label = ground arith

in_order-soft_deletable :
    (unnamed google besttime good hard ambiguous label : Bool)
    → soft_deletable (in_order unnamed google besttime good hard ambiguous label)
      ≡ (not (not unnamed) || (google || besttime) || not good && (hard || ambiguous && label))
unfolding in_order
in_order-soft_deletable unnamed google besttime good hard ambiguous label = ground arith

-- A venue is eligible exactly where it has a name, neither of its types is blocked, and its category
-- is a good one or its name has no keyword. It may be soft-deleted exactly where it has no name, a type
-- is blocked, or its category is not good and its name has a hard keyword or, with a Google type only,
-- an ambiguous one: a venue without a Google type is never deleted for an ambiguous name.
pub evaluate_policy :
    (case : Case) (venue_name besttime_type google_type : Option String)
    (config : Option EligibilityConfig)
    → let s = signals_of case venue_name besttime_type google_type config in
      let r = evaluate case venue_name besttime_type google_type config in
      (r.eligible ≡ (
        s.named
        && not s.blocked_type
        && (s.good_category || not (s.hard_keyword || s.ambiguous_keyword))))
      × (soft_deletable r ≡ (
          not s.named
          || s.blocked_type
          || not s.good_category && (s.hard_keyword || s.ambiguous_keyword && s.labeled)))
unfolding evaluate in_order
evaluate_policy case venue_name besttime_type google_type config = (
  in_order-eligible unnamed google besttime good hard ambiguous label,
  in_order-soft_deletable unnamed google besttime good hard ambiguous label,
)
  where
    cfg : EligibilityConfig
    cfg = config_or_default config

    gtype : Option String
    gtype = google_type_of case google_type

    btype : Option String
    btype = besttime_type_of case besttime_type

    unnamed : Bool
    unnamed = str_eq (name_of case venue_name) ""

    google : Bool
    google = is_blocked gtype cfg.blocked_google_types

    besttime : Bool
    besttime = is_blocked btype cfg.blocked_venue_types

    good : Bool
    good = has_good_category case gtype btype

    hard : Bool
    hard = matches_keyword (case.lower (name_of case venue_name)) cfg.hard_blocked_name_keywords

    ambiguous : Bool
    ambiguous = matches_keyword (case.lower (name_of case venue_name)) cfg.ambiguous_name_keywords

    label : Bool
    label = is_some gtype
