-- ===== src/Venues/Targeting/Evidence.antt =====
-- The evidence gate of app/services/event_venue_targeting.py: captions, archived flyers, and the
-- verdict. A timestamp is the number that `_parse_timestamp` makes of it, or none.
use cs_server.Prelude.{
  ℕ, zero, suc, ◌+◌, Bool, false, Option, none, some, List, [], ◌∷◌, ◌++◌, length, ltb, leb,
  if◌then◌else◌,
}
use cs_server.Python.Except.{Result, ok}
use cs_server.Python.Regex.{Text, Unicode}
use cs_server.Python.Text.{or_empty}
use cs_server.Venues.Markers.{matches_event_marker}
use cs_server.Venues.Targeting.Config.{Tier, evidence_confirmed, evidence_rejected}

pub record Post : Type 0 where
  pub caption : Option Text
  pub timestamp : Option ℕ

unfoldable pub evidence_verdict : ℕ → ℕ → Tier
evidence_verdict score min_posts =
    if leb min_posts score then evidence_confirmed else evidence_rejected

abbrev pub take {ℓ} : {A : Type ℓ} → ℕ → List A → List A
take zero xs = []
take (suc n) [] = []
take (suc n) (x ∷ xs) = x ∷ take n xs

abbrev is_older : ℕ → Option ℕ → Bool
is_older since none = false
is_older since (some t) = ltb t since

-- One more match; three samples are kept.
abbrev pub counted : Option Text → ℕ × List Text → ℕ × List Text
counted caption (count, samples) = (
  count + 1,
  if ltb (length samples) 3 then samples ++ take 140 (or_empty caption) ∷ [] else samples,
)

-- Whether a post counts: within the window, or of an unknown time, with a marker.
abbrev is_evidence : Unicode → ℕ → Post → Bool
is_evidence u since post =
    (if is_older since post.timestamp then false else matches_event_marker u post.caption)

count_from : Unicode → ℕ → List Post → ℕ × List Text → ℕ × List Text
unfolding matches_event_marker
count_from u since [] acc = acc
count_from u since (post ∷ posts) acc =
    count_from u since posts (if is_evidence u since post then counted post.caption acc else acc)

unfoldable pub caption_evidence : Unicode → ℕ → List Post → ℕ × List Text
unfolding count_from
caption_evidence u since posts = count_from u since posts (0, [])

-- One run of the archive: its day, if its prefix has one, and the flyers of the venue's manifest, which
-- may be missing or not readable.
pub record ArchiveRun : Type 0 where
  pub day : Option ℕ
  pub manifest : Result (Option ℕ)
  pub sample : ℕ → Text

abbrev flyers_of : Result (Option ℕ) → ℕ
flyers_of (ok (some n)) = n
flyers_of _ = zero

abbrev with_flyers : ℕ → ArchiveRun → ℕ × List Text → ℕ × List Text
with_flyers zero r acc = acc
with_flyers (suc n) r (total, samples) = (total + suc n, samples ++ r.sample (suc n) ∷ [])

flyers_from : ℕ → List ArchiveRun → ℕ × List Text → ℕ × List Text
flyers_from since [] acc = acc
flyers_from since (r ∷ runs) acc =
    flyers_from since runs
      (if is_older since r.day then acc else with_flyers (flyers_of r.manifest) r acc)

abbrev three_samples : ℕ × List Text → ℕ × List Text
three_samples (total, samples) = (total, take 3 samples)

-- `ArchivedFlyerEvidenceSource.flyer_count`; without an archive, or where its runs cannot be listed,
-- there is nothing, as for `NullFlyerEvidenceSource`.
unfoldable pub flyer_count : Option (Result (List ArchiveRun)) → ℕ → ℕ × List Text
unfolding flyers_from
flyer_count (some (ok runs)) since = three_samples (flyers_from since runs (0, []))
flyer_count _ since = (0, [])
