-- ===== src/Venues/Resolution.antt =====
-- The ladder of app/services/event_venue_resolution.py. The distance on the sphere is a parameter.
pub mod Sorted
pub mod Ranked
pub mod Answers
pub mod ByName
pub mod ByTag
pub mod ByMention
pub mod Sound
use cs_server.Prelude.{
  ℕ, ◌+◌, Bool, true, false, not, ◌&&◌, ◌||◌, Option, none, some, List, [], ◌∷◌, map, ◌==◌, leb,
  ltb, if◌then◌else◌,
}
use cs_server.Prelude.Int.{ℤ}
use cs_server.Python.Regex.{Text}
use cs_server.Python.Round.{round_to}
use cs_server.Python.Text.{is_empty, text_eq, or_empty}
use cs_server.Instagram.Handles.{normalize_handle}
use cs_server.Instagram.Similarity.{Names, billion, name_similarity}
use cs_server.Venues.Mentions.{HandleIndex, venue_of, extract_mentions}
use cs_server.Venues.Links.{
  Method, handle_mention, location_tag, name_match, Resolution, auto, queued, unresolved,
  default_confidence_floor, default_margin, location_tag_match_floor, VenueLite, Evidence,
  mentioned, tagged, named, LinkCandidate, ResolutionResult, LocationTag, round_score,
  round_distance, gate_auto_link,
}
use cs_server.Venues.Ranking.{both, similarity, name_match_candidates}

-- What the ladder is given of an event.
pub record Place : Type 0 where
  pub caption : Option Text
  pub location_text : Option Text
  pub tag : Option LocationTag
  pub promoter_handle : Option Text

-- The dictionary of the venues by their ids: the last venue of an id.
unfoldable pub by_id : List VenueLite → Text → Option VenueLite
unfolding text_eq
by_id [] i = none
by_id (v ∷ vs) i = elim (by_id vs i) [
  | some w ↦ some w
  | none ↦ (if text_eq v.venue_id i then some v else none)
]

abbrev pub tag_name_of : Option LocationTag → Option Text
tag_name_of none = none
tag_name_of (some t) = t.name

abbrev pub tag_coords_of : Option LocationTag → Option (ℤ × ℤ)
tag_coords_of none = none
tag_coords_of (some t) = both t.lat t.lng

abbrev pub same_handle : Option Text → Text → Bool
same_handle none m = false
same_handle (some h) m = text_eq m h

-- `handle_index.get(mention)`, then `by_id.get(venue_id) if venue_id`
abbrev venue_with : List VenueLite → Option Text → Option VenueLite
venue_with venues none = none
venue_with venues (some i) = let v = by_id venues i in if is_empty i then none else v

unfoldable pub mentioned_venue : List VenueLite → HandleIndex → Text → Option VenueLite
unfolding by_id venue_of
mentioned_venue venues index m = venue_with venues (venue_of index m)

-- The first mention of a known venue that is not the promoter's own handle.
unfoldable pub first_mention :
    List VenueLite → HandleIndex → Option Text → List Text → Option (Text × VenueLite)
unfolding mentioned_venue text_eq
first_mention venues index own [] = none
first_mention venues index own (m ∷ ms) =
    let rest = first_mention venues index own ms in
    let here = mentioned_venue venues index m in
    if same_handle own m then rest else elim here [ none ↦ rest | some v ↦ some (m, v) ]

module _ (n : Names) (haversine : ℤ × ℤ → ℤ × ℤ → ℕ) where
  -- The best venue for a tag so far, with its score.
  unfoldable pub best_tagged : Text → List VenueLite → Option VenueLite → ℕ → Option VenueLite × ℕ
  unfolding name_similarity
  best_tagged t [] best score = (best, score)
  best_tagged t (v ∷ vs) best score =
      let better = best_tagged t vs (some v) (similarity n v t) in
      let same = best_tagged t vs best score in
      if ltb score (similarity n v t) then better else same

  abbrev linked : VenueLite → Method → ℕ → Evidence → ResolutionResult
  linked v method score evidence = record {
    resolution = auto;
    venue_id = some v.venue_id;
    method = some method;
    confidence = some score;
    candidates =
        record {
          venue_id = v.venue_id;
          venue_name = v.venue_name;
          method = method;
          score = score;
          evidence = evidence;
        }
        ∷ [];
  }

  abbrev not_linked : Resolution → List LinkCandidate → ResolutionResult
  not_linked r candidates = record {
    resolution = r;
    venue_id = none;
    method = none;
    confidence = none;
    candidates = candidates;
  }

  -- Rungs 3 and 4.
  unfoldable pub resolve_by_name : List LinkCandidate → ℕ → ℕ → ResolutionResult
  unfolding gate_auto_link
  resolve_by_name [] floor margin = not_linked unresolved []
  resolve_by_name (top ∷ rest) floor margin =
      if (gate_auto_link (top ∷ rest) floor margin).0
      then record {
        resolution = auto;
        venue_id = some top.venue_id;
        method = some top.method;
        confidence = some top.score;
        candidates = top ∷ rest;
      }
      else (if leb floor top.score
          then not_linked queued (top ∷ rest)
          else not_linked unresolved (top ∷ rest))

  abbrev pub tag_rung : Text → Option VenueLite × ℕ → ResolutionResult → ResolutionResult
  tag_rung t (none, score) more = more
  tag_rung t (some v, score) more =
      if leb location_tag_match_floor score
      then linked v location_tag (round_score score) (tagged t)
      else more

  -- Rung 2.
  abbrev pub resolve_by_tag : Option Text → List VenueLite → ResolutionResult → ResolutionResult
  resolve_by_tag none venues more = more
  resolve_by_tag (some t) venues more =
      let best = best_tagged t venues none 0 in if is_empty t then more else tag_rung t best more

  -- Rung 1.
  abbrev pub resolve_by_mention : Option (Text × VenueLite) → ResolutionResult → ResolutionResult
  resolve_by_mention none more = more
  resolve_by_mention (some (m, v)) more = linked v handle_mention billion (mentioned m)

  unfoldable pub resolve_event_venue :
      Place → List VenueLite → HandleIndex → ℕ → ℕ → ResolutionResult
  unfolding first_mention extract_mentions best_tagged name_match_candidates resolve_by_name
      normalize_handle round_to
  resolve_event_venue p venues index floor margin =
      resolve_by_mention
        (first_mention venues index (normalize_handle n.unicode p.promoter_handle)
          (extract_mentions n.unicode p.caption))
        (resolve_by_tag (tag_name_of p.tag) venues (
          resolve_by_name
            (name_match_candidates n haversine p.location_text venues (tag_coords_of p.tag)) floor
            margin))
