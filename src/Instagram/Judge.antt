-- ===== src/Instagram/Judge.antt =====
-- app/services/instagram_judge.py. The model that is asked is a parameter: its answer, or none where
-- the call, the JSON or the number cannot be read. A confidence is a number of hundredths of a
-- billionth, as in the cascade.
use cs_server.Prelude.{
  ℕ, ◌*◌, String, Bool, true, false, ◌&&◌, ◌||◌, Option, none, some, List, [], ◌∷◌, if◌then◌else◌,
}
use cs_server.Python.Regex.{Text}
use cs_server.Instagram.Similarity.{billion, min}

pub data Mode : Type 0 where
  vision_both vision_partial text_only unavailable : Mode

pub record Verdict : Type 0 where
  pub mode : Mode
  pub is_match : Bool
  pub confidence : ℕ
  pub reason : Option String

-- A share of a hundred.
abbrev pub percent : ℕ → ℕ
percent n = n * billion

abbrev text_only_confidence_ceiling : ℕ
text_only_confidence_ceiling = percent 80

unfoldable select_mode : Bool → Bool → Mode
select_mode has_profile_image has_venue_photos =
    if has_profile_image && has_venue_photos
    then vision_both
    else (if has_profile_image || has_venue_photos then vision_partial else text_only)

unfoldable pub cap_for_mode : Mode → ℕ → ℕ
cap_for_mode text_only confidence = min confidence text_only_confidence_ceiling
cap_for_mode _ confidence = confidence

-- What the model says of a match: `is_match`, `confidence` and `reason`.
pub record Reply : Type 0 where
  pub is_match : Bool
  pub confidence : ℕ
  pub reason : Option String

abbrev verdict_of : Mode → Option Reply → Option Verdict
verdict_of mode none = none
verdict_of mode (some r) = some (record {
  mode = mode;
  is_match = r.is_match;
  confidence = cap_for_mode mode r.confidence;
  reason = r.reason;
})

abbrev take_photos : ℕ → List Text → List Text
take_photos ℕ.zero ps = []
take_photos (ℕ.suc n) [] = []
take_photos (ℕ.suc n) (p ∷ ps) = p ∷ take_photos n ps

abbrev is_there : Option Text → Bool
is_there none = false
is_there (some []) = false
is_there (some (c ∷ cs)) = true

abbrev is_any : List Text → Bool
is_any [] = false
is_any (p ∷ ps) = true

-- `ask` gets the mode, the picture and the photos that the prompt and the call are built from.
unfoldable pub judge :
    (Mode → Option Text → List Text → Option Reply) → ℕ → Option Text → List Text → Option Verdict
unfolding select_mode cap_for_mode
judge ask max_photos image_url venue_photos =
    let photos = take_photos max_photos venue_photos in
    let mode = select_mode (is_there image_url) (is_any photos) in
    verdict_of mode (ask mode image_url photos)
