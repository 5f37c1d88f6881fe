-- ===== src/Instagram/Cascade.antt =====
-- `discover` of app/services/instagram_cascade_service.py, with `_finalize` and what is stored.
pub mod Best
pub mod Genuine
pub mod Accepted
pub mod Paid
pub mod Repeated
use cs_server.Prelude.{
  ℕ, ◌+◌, ◌-◌, ◌*◌, Bool, true, false, not, ◌&&◌, Option, none, some, List, [], ◌∷◌, ◌++◌, leb, ltb,
  if◌then◌else◌,
}
use cs_server.Python.Except.{Result, ok, raised}
use cs_server.Python.Json.{codes}
use cs_server.Python.Regex.{Text}
use cs_server.Python.Text.{is_empty}
use cs_server.Instagram.Handles.{
  Source, google_website, archived_gmaps, venue_website, apify_search, google_search, source_order,
  is_paid, Rejection, normalize_handle, extract_handle,
}
use cs_server.Instagram.Data.{
  provenance_weight, existence_bonus, name_weight, Existence, present, absent, unknown, blocked,
  Probe, Signals, Notes, CascadeResult, Status, found, low_confidence, not_found, VenueInstagram,
  Fetch, answered, forbidden, failed, JudgeClient, Service, Config, no_notes, Candidates, or_text,
  shown_by, existence_of, probed, is_absent, checked, bonus_of,
}
use cs_server.Instagram.Candidates.{candidates_from}
use cs_server.Instagram.Scoring.{candidate, adjudicate, settle, clears}

module _ (s : Service) where
  abbrev pub better : Option CascadeResult → CascadeResult → Option CascadeResult
  better none cand = some cand
  better (some b) cand = if ltb b.confidence cand.confidence then some cand else some b

  -- The loop over the candidates of a source.
  unfoldable pub consider :
      Config
      → Text
      → Option Text
      → Source
      → Option CascadeResult
      → List (Text × Option Text)
      → Option CascadeResult
  unfolding candidate adjudicate
  consider c venue_id venue_name t best [] = best
  consider c venue_id venue_name t best ((h, display) ∷ cs) =
      let p = probed s.probe h in
      let cand = settle s c (candidate s venue_id venue_name t p h display) p in
      let skipped = consider c venue_id venue_name t best cs in
      let more = consider c venue_id venue_name t (better best cand) cs in
      if is_absent (existence_of p)
      then skipped
      else (if clears s cand then better best cand else more)

  abbrev pub source_enabled : Config → Source → Bool
  source_enabled c t = not (is_paid t && c.disabled apify_search) && not (c.disabled t)

  abbrev pub is_settled : Option CascadeResult → Bool
  is_settled none = false
  is_settled (some b) = clears s b

  abbrev pub consider_all :
      Config
      → Text
      → Option Text
      → Source
      → Option CascadeResult
      → Candidates
      → Option CascadeResult
  consider_all c venue_id venue_name t best none = best
  consider_all c venue_id venue_name t best (some cs) = consider c venue_id venue_name t best cs

  -- After a source without candidates the loop goes on, without the test of the best result.
  abbrev pub has_candidates : Candidates → Bool
  has_candidates none = false
  has_candidates (some []) = false
  has_candidates (some (c ∷ cs)) = true

  -- The loop over the sources.
  unfoldable pub try_sources :
      Config
      → Text
      → Option Text
      → List Source
      → Option CascadeResult
      → Notes
      → Option CascadeResult × Notes
  unfolding candidates_from consider
  try_sources c venue_id venue_name [] best n = (best, n)
  try_sources c venue_id venue_name (t ∷ ts) best n =
      let (cs, noted) = candidates_from s n t venue_id in
      let next = consider_all c venue_id venue_name t best cs in
      let skipped = try_sources c venue_id venue_name ts best n in
      let more = try_sources c venue_id venue_name ts next noted in
      if not (source_enabled c t)
      then skipped
      else (if has_candidates cs && is_settled next then (next, noted) else more)

  abbrev url_of : Option Text → Option Text
  url_of none = none
  url_of (some h) = if is_empty h then none else some (codes "https://instagram.com/" ++ h)

  abbrev is_not_found : Status → Bool
  is_not_found not_found = true
  is_not_found _ = false

  unfoldable pub persist : CascadeResult → Status → VenueInstagram
  persist r status =
      let kept = if is_not_found status then none else r.handle in
      record {
        venue_id = r.venue_id;
        instagram_handle = kept;
        instagram_url = url_of kept;
        confidence_score = r.confidence;
        status = status;
        source = r.source;
        discovery = r;
      }

  abbrev nothing : Text → Notes → CascadeResult
  nothing venue_id n = record {
    venue_id = venue_id;
    handle = none;
    source = none;
    accepted = false;
    confidence = 0;
    signals = none;
    profile_exists = unknown;
    display_name = none;
    judge = none;
    judge_mode = none;
    notes = n;
  }

  abbrev status_of : CascadeResult → Status
  status_of b =
      if clears s b
      then found
      else (if leb s.ambiguous_low b.confidence then low_confidence else not_found)

  -- The result, and what is stored.
  unfoldable pub finalize : Text → Option CascadeResult × Notes → CascadeResult × VenueInstagram
  unfolding persist
  finalize venue_id (none, n) = let r = nothing venue_id n in (r, persist r not_found)
  finalize venue_id (some b, n) =
      let r = record b { notes = n; accepted = clears s b } in (r, persist r (status_of b))

-- The store as the service reads it, and for which venues a write succeeds.
pub record Dao : Type 0 where
  pub get_venue : Text → Result (Option Text)
  pub get_venue_instagram : Text → Result (Option VenueInstagram)
  pub saves : Text → Bool

abbrev pub has_handle : Option Text → Bool
has_handle none = false
has_handle (some h) = not (is_empty h)

-- The result that repeats what is stored.
abbrev pub repeated : VenueInstagram → CascadeResult
repeated e = record {
  venue_id = e.venue_id;
  handle = e.instagram_handle;
  source = e.source;
  accepted = has_handle e.instagram_handle;
  confidence = e.confidence_score;
  signals = none;
  profile_exists = unknown;
  display_name = none;
  judge = none;
  judge_mode = none;
  notes = no_notes;
}

abbrev pub Discovered : Type 0
Discovered = CascadeResult × Option VenueInstagram

module _ (s : Service) (dao : Dao) where
  abbrev unless_stored : Option VenueInstagram → CascadeResult × VenueInstagram → Discovered
  unless_stored none (r, v) = (r, some v)
  unless_stored (some e) d = (repeated e, none)

  -- `look` for the venue unless a result of an earlier run is to be repeated.
  abbrev pub answer :
      Bool
      → (Option Text → CascadeResult × VenueInstagram)
      → Result (Option Text)
      → Result (Option VenueInstagram)
      → Result Discovered
  answer force look (raised x) existing = raised x
  answer true look (ok name) existing = ok (unless_stored none (look name))
  answer false look (ok name) (raised x) = raised x
  answer false look (ok name) (ok existing) = ok (unless_stored existing (look name))

  unfoldable pub discover : Config → Text → Result Discovered
  unfolding try_sources finalize
  discover c venue_id =
      answer c.force_refresh
        (λ name. finalize s venue_id (try_sources s c venue_id name source_order none no_notes))
        (dao.get_venue venue_id) (dao.get_venue_instagram venue_id)
