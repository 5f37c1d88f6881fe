-- ===== src/Venues/Resolution/Ranked.antt =====
-- The ranking of the venues by name, against a description of its own: which venues stand in it, with
-- which measures, and which one stands before which.
use mathlib.Core.List.{Perm}
use cs_server.Prelude.{
  ℕ, ◌≤◌, ◌<◌, ◌≡◌, ◌∙◌, ◌⊎◌, refl, ap, inl, inr, Bool, true, false, Option, none, some, List, [],
  ◌∷◌, map, Bool-cases, arith, ltb, ◌==◌, if◌then◌else◌, subst,
}
use cs_server.Prelude.Int.{ℤ}
use cs_server.Python.Text.{is_empty}
use cs_server.Python.Regex.{Text}
use cs_server.Instagram.Similarity.{Names, name_similarity}
use cs_server.Venues.Links.{VenueLite}
use cs_server.Venues.Ranking.{
  both, distance_between, scored_venue, Scored, ranks_before, nearer, sort, candidate_of,
  score_venues, name_match_candidates,
}
use cs_server.Venues.Resolution.Sorted.{Every, Every-weaken, InOrder, sort-InOrder, sort-perm}

-- No distance counts as the largest.
abbrev pub NotFarther : Option ℕ → Option ℕ → Type 0
NotFarther (some a) (some b) = a ≤ b
NotFarther a none = Unit
NotFarther none (some b) = ⊥

-- The first has the higher score, or the same one and no larger distance.
abbrev pub Precedes : Scored → Scored → Type 0
Precedes a b = (b.score < a.score) ⊎ ((a.score ≡ b.score) × NotFarther a.distance b.distance)

-- Each one precedes all that follow.
abbrev pub Ordered : List Scored → Type 0
Ordered [] = Unit
Ordered (a ∷ as') = Every (Precedes a) as' × Ordered as'

abbrev pub those : (VenueLite → Bool) → List VenueLite → List VenueLite
those test [] = []
those test (v ∷ vs) = let rest = those test vs in if test v then v ∷ rest else rest

abbrev pub name_score : Names → Text → VenueLite → ℕ
name_score n t v = name_similarity n (some v.venue_name) (some t) none

-- The distance, where both the post and the venue have coordinates.
abbrev pub span : (ℤ × ℤ → ℤ × ℤ → ℕ) → Option (ℤ × ℤ) → Option ℤ → Option ℤ → Option ℕ
span haversine (some here) (some lat) (some lng) = some (haversine here (lat, lng))
span haversine _ _ _ = none

module _ (n : Names) (haversine : ℤ × ℤ → ℤ × ℤ → ℕ) where
  -- The venue with its measures.
  abbrev pub measured : Text → Option (ℤ × ℤ) → VenueLite → Scored
  measured t coords v = record {
    venue = v;
    score = name_score n t v;
    distance = span haversine coords v.lat v.lng;
  }

  -- The venues whose name is at all similar, measured.
  abbrev pub similar : Text → Option (ℤ × ℤ) → List VenueLite → List Scored
  similar t coords venues = map (measured t coords) (those (λ v. ltb 0 (name_score n t v)) venues)

NotFarther-not_nearer : (a b : Option ℕ) → nearer b a ≡ false → NotFarther a b
NotFarther-not_nearer (some a) (some b) h = ground (arith, h)
NotFarther-not_nearer (some a) none h = tt
NotFarther-not_nearer none none h = tt
NotFarther-not_nearer none (some b) h = absurd (cc h)

Precedes-not_before : (a b : Scored) → ranks_before b a ≡ false → Precedes a b
Precedes-not_before a b h = elim (Bool-cases (ltb b.score a.score)) [
  | inl above ↦ inl (ground arith)
  | inr other ↦ inr (ground arith, NotFarther-not_nearer a.distance b.distance (ground arith))
]

Ordered-InOrder : (as' : List Scored) → InOrder as' → Ordered as'
Ordered-InOrder [] h = tt
Ordered-InOrder (a ∷ as') (below, h) = (
  Every-weaken _ (Precedes a) as' (λ b g. Precedes-not_before a b g) below,
  Ordered-InOrder as' h,
)

module _ (n : Names) (haversine : ℤ × ℤ → ℤ × ℤ → ℕ) where
  distance_between-span :
      (coords : Option (ℤ × ℤ)) (lat lng : Option ℤ)
      → distance_between n haversine coords (both lat lng) ≡ span haversine coords lat lng
  distance_between-span none lat lng = refl
  distance_between-span (some here) none lng = refl
  distance_between-span (some here) (some lat) none = refl
  distance_between-span (some here) (some lat) (some lng) = refl

  scored_venue-measured :
      (t : Text) (coords : Option (ℤ × ℤ)) (v : VenueLite)
      → scored_venue n haversine t coords v ≡ measured n haversine t coords v
  scored_venue-measured t coords v =
      ap (λ (d : Option ℕ). record { venue = v; score = name_score n t v; distance = d })
        (distance_between-span coords v.lat v.lng)

  score_venues-similar :
      (t : Text) (coords : Option (ℤ × ℤ)) (venues : List VenueLite)
      → score_venues n haversine t coords venues ≡ similar n haversine t coords venues
  unfolding score_venues
  score_venues-similar t coords [] = refl
  score_venues-similar t coords (v ∷ vs) =
      let later = score_venues-similar t coords vs in
      let own = scored_venue-measured t coords v in
      elim (Bool-cases (ltb 0 (name_score n t v))) [
        | inl alike ↦
            let kept : (name_score n t v == 0) ≡ false = ground arith in
            rw (kept, alike)
              (ap (λ r. scored_venue n haversine t coords v ∷ r) later
                ∙ ap (λ a. a ∷ similar n haversine t coords vs) own)
        | inr other ↦
            let left : (name_score n t v == 0) ≡ true = ground arith in rw (left, other) later
      ]

  -- For a text that is not empty, the candidates by name are the venues with a score above 0, each
  -- once and with its score and its distance from the post, where both have coordinates. Each one
  -- precedes all that follow: its score is higher, or it is the same and its distance is no larger,
  -- where no distance counts as the largest.
  pub name_match_candidates-IsRanking :
      (t : Text) (venues : List VenueLite) (coords : Option (ℤ × ℤ))
      → is_empty t ≡ false
      → (ranked : List Scored) × ((name_match_candidates n haversine (some t) venues coords
            ≡ map (candidate_of t) ranked)
          × (Perm ranked (similar n haversine t coords venues) × Ordered ranked))
  unfolding name_match_candidates
  name_match_candidates-IsRanking t venues coords full =
      let scored = score_venues n haversine t coords venues in
      (
        sort scored,
        (
          rw full refl,
          (
            subst (Perm (sort scored)) (score_venues-similar t coords venues) (sort-perm scored),
            Ordered-InOrder (sort scored) (sort-InOrder scored),
          ),
        ),
      )
