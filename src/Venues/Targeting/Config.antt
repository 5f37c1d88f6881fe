-- ===== src/Venues/Targeting/Config.antt =====
-- The configurations of app/services/event_venue_targeting.py, and its category gate. A frozenset is
-- the list of what was put in.
use cs_server.Prelude.{
  ℕ, String, Bool, true, false, Option, none, some, List, [], ◌∷◌, str_eq, elem, if◌then◌else◌,
}
use cs_server.Prelude.Int.{ℤ, pos, negsuc}
use cs_server.Python.Except.{Result, ok, raised, type_error, value_error, and_then}
use cs_server.Python.Json.{
  Json, null, str, arr, obj, Items, nil, cons, Fields, end, field, get, to_int, truthy,
}
use cs_server.Eligibility.Categories.{categories}
use cs_server.Eligibility.Category.{Case}

pub data Tier : Type 0 where
  unevaluated category_candidate evidence_confirmed evidence_rejected excluded_category : Tier

abbrev pub default_allowed_categories : List String
default_allowed_categories =
    "NIGHTCLUB" ∷ "LIVE_MUSIC" ∷ "EVENT_VENUE" ∷ "KARAOKE" ∷ "CASINO" ∷ "ENTERTAINMENT" ∷ "PUB"
    ∷ "BAR" ∷ "COCKTAIL_BAR" ∷ "BREWERY" ∷ []

abbrev pub default_vibe_music_format_overrides : List String
default_vibe_music_format_overrides = "Banda ao vivo" ∷ "Roda de samba" ∷ "DJ" ∷ []

abbrev pub default_vibe_estilo_overrides : List String
default_vibe_estilo_overrides = "Balada" ∷ "Club" ∷ []

pub record CategoryConfig : Type 0 where
  pub allowed_categories : List String
  pub vibe_music_format_overrides : List String
  pub vibe_estilo_overrides : List String

abbrev pub defaults : CategoryConfig
defaults = record {
  allowed_categories = default_allowed_categories;
  vibe_music_format_overrides = default_vibe_music_format_overrides;
  vibe_estilo_overrides = default_vibe_estilo_overrides;
}

abbrev prepend : String → Result (List String) → Result (List String)
prepend s (ok ss) = ok (s ∷ ss)
prepend s (raised e) = raised e

unfoldable pub texts_of : Items → Result (List String)
texts_of nil = ok []
texts_of (cons (str s) rest) = prepend s (texts_of rest)
texts_of (cons _ rest) = raised type_error

abbrev set_or : List String → Option Json → Result (List String)
set_or fallback none = ok fallback
set_or fallback (some (arr xs)) = texts_of xs
set_or fallback (some _) = raised type_error

-- `_string_set(key, fallback)`
unfoldable pub string_set : Fields → String → List String → Result (List String)
unfolding texts_of get
string_set fs key fallback = set_or fallback (get key fs)

-- A list of texts, as JSON.
unfoldable pub items_of : List String → Items
items_of [] = nil
items_of (s ∷ ss) = cons (str s) (items_of ss)

-- What an operator's write is stored as; `sorted` makes a list of a set.
abbrev pub stored_form : (List String → List String) → CategoryConfig → Json
stored_form sorted cfg = obj (
    field "allowed_categories" (arr (items_of (sorted cfg.allowed_categories))) (
      field "vibe_music_format_overrides" (arr (items_of (sorted cfg.vibe_music_format_overrides)))
        (field "vibe_estilo_overrides" (arr (items_of (sorted cfg.vibe_estilo_overrides))) end)))

pub data Fallback : Type 0 where
  unreadable invalid_json invalid_shape : Fallback

module _ (case : Case) where
  -- The categories in capitals, or the error of one that is unknown.
  unfoldable pub upper_categories : List String → Result (List String)
  upper_categories [] = ok []
  upper_categories (c ∷ cs) =
      let rest = upper_categories cs in
      if elem (case.upper c) categories then prepend (case.upper c) rest else raised value_error

  abbrev pub of_fields : Fields → Result CategoryConfig
  of_fields fs = and_then (string_set fs "allowed_categories" default_allowed_categories) λ given.
      and_then (upper_categories given) λ allowed.
        and_then (string_set fs "vibe_music_format_overrides" default_vibe_music_format_overrides)
          λ music.
            and_then (string_set fs "vibe_estilo_overrides" default_vibe_estilo_overrides) λ estilo.
              ok (record {
                allowed_categories = allowed;
                vibe_music_format_overrides = music;
                vibe_estilo_overrides = estilo;
              })

  unfoldable pub from_dict : Json → Result CategoryConfig
  unfolding string_set upper_categories
  from_dict (obj fs) = of_fields fs
  from_dict _ = raised type_error

  unfoldable pub validate_event_candidate_categories_config :
      (List String → List String) → Json → Result Json
  unfolding from_dict items_of
  validate_event_candidate_categories_config sorted value =
      and_then (from_dict value) λ cfg. ok (stored_form sorted cfg)

  abbrev of_parsed : Result CategoryConfig → CategoryConfig × Option Fallback
  of_parsed (ok cfg) = (cfg, none)
  of_parsed (raised e) = (defaults, some invalid_shape)

  abbrev of_json : Result Json → CategoryConfig × Option Fallback
  of_json (raised e) = (defaults, some invalid_json)
  of_json (ok data_) = of_parsed (from_dict data_)

  abbrev of_raw : (String → Result Json) → Result (Option String) → CategoryConfig × Option Fallback
  of_raw loads (raised e) = (defaults, some unreadable)
  of_raw loads (ok none) = (defaults, none)
  of_raw loads (ok (some raw)) = of_json (loads raw)

  -- `read` is none without a client, and raised where the read fails.
  unfoldable pub load_event_candidate_categories :
      (String → Result Json) → Option (Result (Option String)) → CategoryConfig × Option Fallback
  unfolding from_dict
  load_event_candidate_categories loads none = (defaults, none)
  load_event_candidate_categories loads (some read) = of_raw loads read

pub record VibeProfile : Type 0 where
  pub music_format : List String
  pub estilo_do_lugar : List String

-- Why a venue passes or fails: its category, or a label.
pub data GateReason : Type 0 where
  category : String → GateReason
  vibe : String → GateReason

abbrev pub Gate : Type 0
Gate = Bool × GateReason

unfoldable pub first_label : List String → List String → Option String
first_label [] overrides = none
first_label (l ∷ ls) overrides =
    let rest = first_label ls overrides in if elem l overrides then some l else rest

abbrev pub by_vibes : Option String → Option String → String → Gate
by_vibes (some l) estilo cat = (true, vibe l)
by_vibes none (some l) cat = (true, vibe l)
by_vibes none none cat = (false, category cat)

unfoldable pub category_gate : Case → String → VibeProfile → CategoryConfig → Gate
unfolding first_label
category_gate case cat profile cfg =
    let shown = case.upper (if str_eq cat "" then "OTHER" else cat) in
    if elem shown cfg.allowed_categories
    then (true, category shown)
    else by_vibes (first_label profile.music_format cfg.vibe_music_format_overrides)
        (first_label profile.estilo_do_lugar cfg.vibe_estilo_overrides) shown

abbrev default_max_evidence_venues : ℕ
default_max_evidence_venues = 1000

abbrev default_min_evidence_posts : ℕ
default_min_evidence_posts = 3

abbrev default_lookback_days : ℕ
default_lookback_days = 60

pub record RunConfig : Type 0 where
  pub max_evidence_venues : ℕ
  pub min_evidence_posts : ℕ
  pub lookback_days : ℕ
  pub recompute : Bool
  pub dry_run : Bool

-- A number of at least 0; `InvalidEventTargetingConfig` is a ValueError.
abbrev at_least_zero : Result ℤ → Result ℕ
at_least_zero (ok (pos n)) = ok n
at_least_zero (ok (negsuc n)) = raised value_error
at_least_zero (raised type_error) = raised value_error
at_least_zero (raised e) = raised e

-- `_non_negative_int`
unfoldable non_negative_int : Option Json → ℕ → Result ℕ
unfolding to_int
non_negative_int none default = ok default
non_negative_int (some null) default = ok default
non_negative_int (some (str s)) default =
    if str_eq s "" then ok default else at_least_zero (to_int (str s))
non_negative_int (some v) default = at_least_zero (to_int v)

unfoldable pub parse_event_targeting_config : Fields → Result RunConfig
unfolding non_negative_int get
parse_event_targeting_config cfg =
    and_then (non_negative_int (get "max_evidence_venues" cfg) default_max_evidence_venues)
      λ venues.
        and_then (non_negative_int (get "min_evidence_posts" cfg) default_min_evidence_posts)
          λ posts.
            and_then (non_negative_int (get "lookback_days" cfg) default_lookback_days) λ days.
              ok (record {
                max_evidence_venues = venues;
                min_evidence_posts = posts;
                lookback_days = days;
                recompute = truthy (get "recompute" cfg);
                dry_run = truthy (get "dry_run" cfg);
              })
