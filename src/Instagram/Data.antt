-- ===== src/Instagram/Data.antt =====
-- The data of app/services/instagram_cascade_service.py and its weights. The readers of websites, the
-- searches, the probe of profiles and the judge's model are parameters, the fields of `Service`. A
-- confidence is a number of hundredths of a billionth, so that a weight in hundredths times a
-- similarity in billionths needs no rounding.
use cs_server.Prelude.{ℕ, Bool, true, false, Option, none, some, List, [], if◌then◌else◌}
use cs_server.Python.Regex.{Text}
use cs_server.Python.Text.{is_empty}
use cs_server.Instagram.Handles.{
  Source, google_website, archived_gmaps, venue_website, apify_search, google_search, Rejection,
}
use cs_server.Instagram.Judge.{Mode, Verdict, Reply, percent}
use cs_server.Instagram.Similarity.{Names}

abbrev pub provenance_weight : Source → ℕ
provenance_weight google_website = percent 75
provenance_weight archived_gmaps = percent 70
provenance_weight venue_website = percent 40
provenance_weight apify_search = percent 20
provenance_weight google_search = percent 20

abbrev pub existence_bonus : ℕ
existence_bonus = percent 15

-- In hundredths.
abbrev pub name_weight : ℕ
name_weight = 40

abbrev pub default_accept : ℕ
default_accept = percent 75

abbrev pub default_ambiguous_low : ℕ
default_ambiguous_low = percent 50

abbrev pub default_judge_floor : ℕ
default_judge_floor = percent 30

pub data Existence : Type 0 where
  present absent unknown blocked : Existence

pub record Probe : Type 0 where
  pub existence : Existence
  pub display_name : Option Text
  pub image_url : Option Text

pub record Signals : Type 0 where
  pub provenance : ℕ
  pub profile_exists : ℕ
  pub name_similarity : ℕ
  pub effective_threshold : ℕ
  pub existence_checked : Bool

-- What a run notes of its tiers.
pub record Notes : Type 0 where
  pub rejections : List Rejection
  pub tier_errors : List Source
  pub tier_unavailable : List Source

pub record CascadeResult : Type 0 where
  pub venue_id : Text
  pub handle : Option Text
  pub source : Option Source
  pub accepted : Bool
  pub confidence : ℕ
  pub signals : Option Signals
  pub profile_exists : Existence
  pub display_name : Option Text
  pub judge : Option Verdict
  pub judge_mode : Option Mode
  pub notes : Notes

pub data Status : Type 0 where
  found low_confidence not_found : Status

-- What is stored; `discovery` is the result itself, whose fields are copied into it.
pub record VenueInstagram : Type 0 where
  pub venue_id : Text
  pub instagram_handle : Option Text
  pub instagram_url : Option Text
  pub confidence_score : ℕ
  pub status : Status
  pub source : Option Source
  pub discovery : CascadeResult

-- What a source answers: a value, a refusal of the permission, or another exception.
pub data Fetch (A : Type 0) : Type 0 where
  answered : A → Fetch A
  forbidden failed : Fetch A

-- The judge: its model, asked with the handle and the display name, and its number of photos.
pub record JudgeClient : Type 0 where
  pub ask : Option Text → Option Text → Mode → Option Text → List Text → Option Reply
  pub max_photos : ℕ

pub record Service : Type 0 where
  pub accept_threshold : ℕ
  pub ambiguous_low : ℕ
  pub judge_floor : ℕ
  pub names : Names
  pub urlparse : Text → Option (Text × Text)
  pub reader : Source → Option (Text → Fetch (Option Text))
  pub paid_search : Option (Text → Fetch (List (Option Text × Option Text)))
  pub probe : Option (Text → Probe)
  pub judge_client : Option JudgeClient
  pub venue_photos : Text → List Text

-- `config` of a run: which flags are set, and which are set to False.
pub record Config : Type 0 where
  pub force_refresh : Bool
  pub judge_disabled : Bool
  pub disabled : Source → Bool

abbrev pub no_notes : Notes
no_notes = record { rejections = []; tier_errors = []; tier_unavailable = [] }

abbrev pub Candidates : Type 0
Candidates = Option (List (Text × Option Text))

-- `a or b` of two optional texts.
abbrev pub or_text : Option Text → Option Text → Option Text
or_text none b = b
or_text (some a) b = if is_empty a then b else some a

abbrev pub shown_by : Option Probe → Option Text
shown_by none = none
shown_by (some p) = p.display_name

abbrev pub existence_of : Option Probe → Existence
existence_of none = unknown
existence_of (some p) = p.existence

abbrev pub is_absent : Existence → Bool
is_absent absent = true
is_absent _ = false

abbrev pub checked : Existence → Bool
checked present = true
checked absent = true
checked _ = false

abbrev pub bonus_of : Existence → ℕ
bonus_of present = existence_bonus
bonus_of _ = 0

-- `_probe`
abbrev pub probed : Option (Text → Probe) → Text → Option Probe
probed none h = none
probed (some fetch) h = some (fetch h)
