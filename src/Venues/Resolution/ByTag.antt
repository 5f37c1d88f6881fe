-- ===== src/Venues/Resolution/ByTag.antt =====
-- Rung 2: the name of the location tag.
use cs_server.Prelude.{
  ℕ, ◌≤◌, ◌≡◌, refl, subst, inl, inr, Option, none, some, List, [], ◌∷◌, ltb, leb, Bool-cases,
  arith,
}
use cs_server.Python.Regex.{Text}
use cs_server.Python.Text.{is_empty}
use cs_server.Venues.Links.{VenueLite, ResolutionResult, location_tag_match_floor}
use cs_server.Venues.Ranking.{similarity}
use cs_server.Venues.Resolution.{tag_name_of, best_tagged, tag_rung, resolve_by_tag}
use cs_server.Venues.Resolution.Sorted.{Every}
use cs_server.Venues.Resolution.Answers.{Ladder, Among, Among-self, Answers}

module _ (l : Ladder) where
  open l use {names, haversine, place, venues, index, floor, margin}

  -- Rung 2: the best venue so far is a venue of the list with its score.
  abbrev Tracks : Text → Option VenueLite → ℕ → Type 0
  Tracks t none score = Unit
  Tracks t (some v) score = Among v venues × (similarity names v t ≡ score)

  best_tagged-Tracks :
      (t : Text) (vs : List VenueLite) (best : Option VenueLite) (score : ℕ)
      → Every (λ v. Among v venues) vs
      → Tracks t best score
      → Tracks t
          (best_tagged names haversine t vs best score).0
          (best_tagged names haversine t vs best score).1
  unfolding best_tagged
  best_tagged-Tracks t [] best score h g = g
  best_tagged-Tracks t (v ∷ vs) best score (k, h) g =
      elim (Bool-cases (ltb score (similarity names v t))) [
        | inl e ↦ rw e (best_tagged-Tracks t vs (some v) (similarity names v t) h (k, refl))
        | inr e ↦ rw e (best_tagged-Tracks t vs best score h g)
      ]

  abbrev IsTop : Text → List VenueLite → ℕ → Option VenueLite × ℕ → Type 0
  IsTop t vs score best = (score ≤ best.1) × Every (λ w. similarity names w t ≤ best.1) vs

  best_tagged-IsTop :
      (t : Text) (vs : List VenueLite) (best : Option VenueLite) (score : ℕ)
      → IsTop t vs score (best_tagged names haversine t vs best score)
  unfolding best_tagged
  best_tagged-IsTop t [] best score = (omega arith, tt)
  best_tagged-IsTop t (v ∷ vs) best score = elim (Bool-cases (ltb score (similarity names v t))) [
    | inl e ↦
        let (first, rest) = best_tagged-IsTop t vs (some v) (similarity names v t) in
        let step : best_tagged names haversine t vs (some v) (similarity names v t)
            ≡ best_tagged names haversine t (v ∷ vs) best score =
          rw e refl in
        subst (IsTop t (v ∷ vs) score) step (ground arith, (first, rest))
    | inr e ↦
        let (first, rest) = best_tagged-IsTop t vs best score in
        let step : best_tagged names haversine t vs best score
            ≡ best_tagged names haversine t (v ∷ vs) best score =
          rw e refl in
        subst (IsTop t (v ∷ vs) score) step (first, (ground arith, rest))
  ]

  tag_rung-Answers :
      (t : Text) (o : Option VenueLite) (score : ℕ) (more : ResolutionResult)
      → tag_name_of place.tag ≡ some t
      → Tracks t o score
      → Every (λ w. similarity names w t ≤ score) venues
      → Answers l more
      → Answers l (tag_rung names haversine t (o, score) more)
  tag_rung-Answers t none score more is_tag h g next = next
  tag_rung-Answers t (some v) score more is_tag (among, same) g next =
      elim (Bool-cases (leb location_tag_match_floor score)) [
        | inr e ↦ rw e next
        | inl e ↦ rw e (
          v,
          (
            among,
            (
              refl,
              inr (
                  inl (record {
                    name = t;
                    is_tag = is_tag;
                    close = ground arith;
                    best = rw same g;
                    method = refl;
                  })),
            ),
          ),
        )
      ]

  pub resolve_by_tag-Answers :
      (name : Option Text) (more : ResolutionResult)
      → tag_name_of place.tag ≡ name
      → Answers l more
      → Answers l (resolve_by_tag names haversine name venues more)
  resolve_by_tag-Answers none more is_tag next = next
  resolve_by_tag-Answers (some t) more is_tag next = elim (Bool-cases (is_empty t)) [
    | inl e ↦ rw e next
    | inr e ↦
        let best = best_tagged names haversine t venues none 0 in
        rw e (
          tag_rung-Answers t best.0 best.1 more is_tag
            (best_tagged-Tracks t venues none 0 (Among-self venues) tt)
            (best_tagged-IsTop t venues none 0).1 next)
  ]
