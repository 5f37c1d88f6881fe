-- ===== src/Venues/Resolution/Answers.antt =====
-- What the ladder may answer, and why.
use cs_server.Prelude.{
  ℕ, ◌+◌, ◌≤◌, ◌<◌, ◌≡◌, ◌⊎◌, refl, inl, inr, true, false, none, some, List, [], ◌∷◌,
}
use cs_server.Prelude.Int.{ℤ}
use cs_server.Python.Regex.{Text}
use cs_server.Python.Text.{is_one_of}
use cs_server.Instagram.Handles.{normalize_handle}
use cs_server.Instagram.Similarity.{Names}
use cs_server.Venues.Mentions.{HandleIndex, venue_of, extract_mentions}
use cs_server.Venues.Links.{
  handle_mention, location_tag, name_match, Resolution, auto, queued, unresolved, VenueLite,
  LinkCandidate, ResolutionResult, location_tag_match_floor,
}
use cs_server.Venues.Ranking.{similarity}
use cs_server.Venues.Resolution.{Place, tag_name_of, same_handle}
use cs_server.Venues.Resolution.Sorted.{Every, Every-weaken}

-- A venue of the list.
abbrev pub Among : VenueLite → List VenueLite → Type 0
Among v [] = ⊥
Among v (w ∷ ws) = (v ≡ w) ⊎ Among v ws

pub Among-self : (vs : List VenueLite) → Every (λ v. Among v vs) vs
Among-self [] = tt
Among-self (v ∷ vs) = (inl refl, Every-weaken _ _ vs (λ w k. inr k) (Among-self vs))

-- The ladder's parameters, and what it is given.
pub record Ladder : Type 0 where
  pub names : Names
  pub haversine : ℤ × ℤ → ℤ × ℤ → ℕ
  pub place : Place
  pub venues : List VenueLite
  pub index : HandleIndex
  pub floor : ℕ
  pub margin : ℕ

module _ (l : Ladder) where
  open l use {names, haversine, place, venues, index, floor, margin}

  -- A mention in the caption that is not the promoter's own handle, of a handle of this venue.
  pub record ByMention (v : VenueLite) (r : ResolutionResult) : Type 0 where
    pub mention : Text
    pub in_caption : is_one_of mention (extract_mentions names.unicode place.caption) ≡ true
    pub not_own : same_handle (normalize_handle names.unicode place.promoter_handle) mention ≡ false
    pub known : venue_of index mention ≡ some v.venue_id
    pub method : r.method ≡ some handle_mention

  -- A tag whose name is like the venue's, and like no other venue's more.
  pub record ByTag (v : VenueLite) (r : ResolutionResult) : Type 0 where
    pub name : Text
    pub is_tag : tag_name_of place.tag ≡ some name
    pub close : location_tag_match_floor ≤ similarity names v name
    pub best : Every (λ w. similarity names w name ≤ similarity names v name) venues
    pub method : r.method ≡ some location_tag

  -- A name that reaches the floor and is ahead of every other one by the margin.
  pub record ByName (v : VenueLite) (r : ResolutionResult) : Type 0 where
    pub top : LinkCandidate
    pub rest : List LinkCandidate
    pub ranked : r.candidates ≡ top ∷ rest
    pub linked : top.venue_id ≡ v.venue_id
    pub enough : floor ≤ top.score
    pub ahead : Every (λ c. c.score + margin ≤ top.score) rest
    pub method : r.method ≡ some name_match

  -- A name that reaches the floor, and a second one within the margin.
  pub record IsClose (r : ResolutionResult) : Type 0 where
    pub top : LinkCandidate
    pub runner_up : LinkCandidate
    pub rest : List LinkCandidate
    pub ranked : r.candidates ≡ top ∷ runner_up ∷ rest
    pub enough : floor ≤ top.score
    pub too_close : top.score < runner_up.score + margin

  -- A venue of the list, by an identity or by its name; two that are too close; or none that reaches
  -- the floor.
  abbrev AnswersAt : Resolution → ResolutionResult → Type 0
  AnswersAt auto r =
      (v : VenueLite) × (Among v venues
        × ((r.venue_id ≡ some v.venue_id) × (ByMention v r ⊎ (ByTag v r ⊎ ByName v r))))
  AnswersAt queued r = (r.venue_id ≡ none) × IsClose r
  AnswersAt unresolved r = (r.venue_id ≡ none) × Every (λ c. c.score < floor) r.candidates

  abbrev pub Answers : ResolutionResult → Type 0
  Answers r = AnswersAt r.resolution r
