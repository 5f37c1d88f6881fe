-- ===== src/Venues/Ranking.antt =====
-- `_name_match_candidates` of app/services/event_venue_resolution.py. The distance on the sphere is a
-- parameter.
use cs_server.Prelude.{
  ℕ, Bool, true, false, ◌&&◌, ◌||◌, Option, none, some, List, [], ◌∷◌, map, ◌==◌, ltb,
  if◌then◌else◌,
}
use cs_server.Prelude.Int.{ℤ}
use cs_server.Python.Regex.{Text}
use cs_server.Python.Round.{round_to}
use cs_server.Python.Text.{is_empty}
use cs_server.Instagram.Similarity.{Names, name_similarity}
use cs_server.Venues.Links.{
  name_match, VenueLite, named, LinkCandidate, round_score, round_distance,
}

-- Both coordinates, or none.
abbrev pub both : Option ℤ → Option ℤ → Option (ℤ × ℤ)
both (some a) (some b) = some (a, b)
both _ _ = none

-- A venue with its score and its distance.
pub record Scored : Type 0 where
  pub venue : VenueLite
  pub score : ℕ
  pub distance : Option ℕ

abbrev pub nearer : Option ℕ → Option ℕ → Bool
nearer (some a) (some b) = ltb a b
nearer (some a) none = true
nearer none d = false

-- `<` of the keys `(-score, distance or inf)`.
abbrev pub ranks_before : Scored → Scored → Bool
ranks_before a b = ltb b.score a.score || a.score == b.score && nearer a.distance b.distance

unfoldable pub insert : Scored → List Scored → List Scored
insert a [] = a ∷ []
insert a (b ∷ bs) = let rest = insert a bs in if ranks_before b a then b ∷ rest else a ∷ b ∷ bs

-- `scored.sort(…)`: what is of equal rank stays in its order.
unfoldable pub sort : List Scored → List Scored
unfolding insert
sort [] = []
sort (a ∷ as') = insert a (sort as')

abbrev pub candidate_of : Text → Scored → LinkCandidate
candidate_of t a = record {
  venue_id = a.venue.venue_id;
  venue_name = a.venue.venue_name;
  method = name_match;
  score = round_score a.score;
  evidence = named t (round_score a.score) (round_distance a.distance);
}

abbrev pub similarity : Names → VenueLite → Text → ℕ
similarity n v t = name_similarity n (some v.venue_name) (some t) none

module _ (n : Names) (haversine : ℤ × ℤ → ℤ × ℤ → ℕ) where
  abbrev pub distance_between : Option (ℤ × ℤ) → Option (ℤ × ℤ) → Option ℕ
  distance_between (some a) (some b) = some (haversine a b)
  distance_between _ _ = none

  abbrev pub scored_venue : Text → Option (ℤ × ℤ) → VenueLite → Scored
  scored_venue t coords v = record {
    venue = v;
    score = similarity n v t;
    distance = distance_between coords (both v.lat v.lng);
  }

  -- The venues with a score above 0.
  unfoldable pub score_venues : Text → Option (ℤ × ℤ) → List VenueLite → List Scored
  unfolding name_similarity
  score_venues t coords [] = []
  score_venues t coords (v ∷ vs) =
      let rest = score_venues t coords vs in
      if similarity n v t == 0 then rest else scored_venue t coords v ∷ rest

  unfoldable pub name_match_candidates :
      Option Text → List VenueLite → Option (ℤ × ℤ) → List LinkCandidate
  unfolding score_venues sort round_to
  name_match_candidates none venues coords = []
  name_match_candidates (some t) venues coords =
      if is_empty t then [] else map (candidate_of t) (sort (score_venues t coords venues))
