-- ===== src/Venues/Resolution/ByName.antt =====
-- Rungs 3 and 4: the names of the venues.
use cs_server.Prelude.{
  ◌+◌, ◌≤◌, ◌<◌, ◌≡◌, refl, ap, inl, inr, true, false, Option, none, some, List, [], ◌∷◌, map, ◌==◌,
  ltb, leb, Bool-cases, arith,
}
use cs_server.Prelude.Int.{ℤ}
use cs_server.Python.Regex.{Text}
use cs_server.Python.Text.{is_empty}
use cs_server.Venues.Links.{name_match, VenueLite, LinkCandidate, gate_auto_link}
use cs_server.Venues.Ranking.{
  Scored, similarity, score_venues, sort, candidate_of, name_match_candidates,
}
use cs_server.Venues.Resolution.{resolve_by_name}
use cs_server.Venues.Resolution.Sorted.{Every, Every-weaken, Descends, sort-Every}
use cs_server.Venues.Resolution.Answers.{Ladder, Among, Among-self, Answers}

module _ (l : Ladder) where
  open l use {names, haversine, place, venues, index, floor, margin}

  -- Rungs 3 and 4.
  abbrev IsOfVenue : LinkCandidate → Type 0
  IsOfVenue c =
      (v : VenueLite) × (Among v venues × ((c.venue_id ≡ v.venue_id) × (c.method ≡ name_match)))

  Every-below :
      (top : LinkCandidate) (cs : List LinkCandidate)
      → Every (λ c. c.score ≤ top.score) cs
      → top.score < floor
      → Every (λ c. c.score < floor) cs
  Every-below top cs h low = Every-weaken _ _ cs (λ c k. omega arith) h

  pub resolve_by_name-Answers :
      (cs : List LinkCandidate)
      → Descends cs
      → Every IsOfVenue cs
      → Answers l (resolve_by_name names haversine cs floor margin)
  unfolding resolve_by_name gate_auto_link
  resolve_by_name-Answers [] h own = (refl, tt)
  resolve_by_name-Answers (top ∷ []) h ((v, (among, (id, by_name))), own) =
      elim (Bool-cases (ltb top.score floor)) [
        | inl low ↦
            let under : leb floor top.score ≡ false = ground arith in
            rw (low, under) (refl, (ground arith, tt))
        | inr enough ↦ rw enough (
          v,
          (
            among,
            (
              ap some id,
              inr (
                  inr (record {
                    top = top;
                    rest = [];
                    ranked = refl;
                    linked = id;
                    enough = ground arith;
                    ahead = tt;
                    method = ap some by_name;
                  })),
            ),
          ),
        )
      ]
  resolve_by_name-Answers (top ∷ next ∷ rest) ((below, all_below), (lower, h))
        ((v, (among, (id, by_name))), own) =
      elim (Bool-cases (ltb top.score floor)) [
        | inl low ↦
            let under : leb floor top.score ≡ false = ground arith in
            rw (low, under)
              (refl, (ground arith, (ground arith, Every-below top rest all_below (ground arith))))
        | inr enough ↦ elim (Bool-cases (ltb top.score (next.score + margin))) [
          | inl close ↦
              let over : leb floor top.score ≡ true = ground arith in
              rw (enough, close, over)
                (
                  refl,
                  record {
                    top = top;
                    runner_up = next;
                    rest = rest;
                    ranked = refl;
                    enough = ground arith;
                    too_close = ground arith;
                  },
                )
          | inr clear ↦
              rw (enough, clear)
                (
                  v,
                  (
                    among,
                    (
                      ap some id,
                      inr (
                          inr (record {
                            top = top;
                            rest = next ∷ rest;
                            ranked = refl;
                            linked = id;
                            enough = ground arith;
                            ahead = (
                              ground arith,
                              Every-weaken (λ c. c.score ≤ next.score) _ rest (λ c k. ground arith)
                                  lower,
                            );
                            method = ap some by_name;
                          })),
                    ),
                  ),
                )
        ]
      ]

  score_venues-Every :
      (P : VenueLite → Type 0) (t : Text) (coords : Option (ℤ × ℤ)) (vs : List VenueLite)
      → Every P vs
      → Every (λ a. P a.venue) (score_venues names haversine t coords vs)
  unfolding score_venues
  score_venues-Every P t coords [] h = tt
  score_venues-Every P t coords (v ∷ vs) (k, h) = elim (Bool-cases (similarity names v t == 0)) [
    | inl e ↦ rw e (score_venues-Every P t coords vs h)
    | inr e ↦ rw e (k, score_venues-Every P t coords vs h)
  ]

  map-Every :
      (t : Text) (as' : List Scored)
      → Every (λ a. Among a.venue venues) as'
      → Every IsOfVenue (map (candidate_of t) as')
  map-Every t [] h = tt
  map-Every t (a ∷ as') (k, h) = ((a.venue, (k, (refl, refl))), map-Every t as' h)

  pub name_match_candidates-Every :
      (text : Option Text) (coords : Option (ℤ × ℤ))
      → Every IsOfVenue (name_match_candidates names haversine text venues coords)
  unfolding name_match_candidates
  name_match_candidates-Every none coords = tt
  name_match_candidates-Every (some t) coords = elim (Bool-cases (is_empty t)) [
    | inl e ↦ rw e tt
    | inr e ↦
        let scored = score_venues names haversine t coords venues in
        rw e (
          map-Every t (sort scored) (
            sort-Every (λ a. Among a.venue venues) scored
              (score_venues-Every (λ v. Among v venues) t coords venues (Among-self venues))))
  ]
