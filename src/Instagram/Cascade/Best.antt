-- ===== src/Instagram/Cascade/Best.antt =====
-- What holds of every candidate that can become the best one holds of the best one.
use cs_server.Prelude.{
  ◌≡◌, inl, inr, true, false, ◌&&◌, Option, none, some, List, [], ◌∷◌, ltb, Bool-cases,
}
use cs_server.Python.Regex.{Text}
use cs_server.Instagram.Handles.{Source}
use cs_server.Instagram.Data.{
  CascadeResult, Service, Config, Notes, Candidates, existence_of, is_absent, probed,
}
use cs_server.Instagram.Candidates.{candidates_from}
use cs_server.Instagram.Scoring.{candidate, settle, clears}
use cs_server.Instagram.Cascade.{
  better, consider, consider_all, source_enabled, is_settled, has_candidates, try_sources,
}

abbrev pub Has : (CascadeResult → Type 0) → Option CascadeResult → Type 0
Has P none = Unit
Has P (some b) = P b

module _ (P : CascadeResult → Type 0) (s : Service) (c : Config) (venue_id : Text)
    (venue_name : Option Text) where
  -- Every candidate of a source, as the loop leaves it, unless its profile is known not to exist.
  abbrev pub EachCandidate : Source → Type 0
  EachCandidate t =
      (h : Text) (display : Option Text)
      → is_absent (existence_of (probed s.probe h)) ≡ false
      → P (
          settle s c (candidate s venue_id venue_name t (probed s.probe h) h display)
            (probed s.probe h))

  better-Has :
      (best : Option CascadeResult) (r : CascadeResult) → Has P best → P r → Has P (better s best r)
  better-Has none r h g = g
  better-Has (some b) r h g = elim (Bool-cases (ltb b.confidence r.confidence)) [
    | inl e ↦ rw e g
    | inr e ↦ rw e h
  ]

  consider-Has :
      (t : Source) (best : Option CascadeResult) (cs : List (Text × Option Text))
      → EachCandidate t
      → Has P best
      → Has P (consider s c venue_id venue_name t best cs)
  unfolding consider
  consider-Has t best [] each h = h
  consider-Has t best ((name, display) ∷ cs) each h =
      let p = probed s.probe name in
      let cand = settle s c (candidate s venue_id venue_name t p name display) p in
      elim (Bool-cases (is_absent (existence_of p))) [
        | inl absent ↦ rw absent (consider-Has t best cs each h)
        | inr there ↦
            let next = better-Has best cand h (each name display there) in
            elim (Bool-cases (clears s cand)) [
              | inl e ↦ rw (there, e) next
              | inr e ↦ rw (there, e) (consider-Has t (better s best cand) cs each next)
            ]
      ]

  consider_all-Has :
      (t : Source) (best : Option CascadeResult) (cs : Candidates)
      → EachCandidate t
      → Has P best
      → Has P (consider_all s c venue_id venue_name t best cs)
  consider_all-Has t best none each h = h
  consider_all-Has t best (some cs) each h = consider-Has t best cs each h

  pub try_sources-Has :
      (ts : List Source) (best : Option CascadeResult) (n : Notes)
      → ((t : Source) → source_enabled s c t ≡ true → EachCandidate t)
      → Has P best
      → Has P (try_sources s c venue_id venue_name ts best n).0
  unfolding try_sources
  try_sources-Has [] best n each h = h
  try_sources-Has (t ∷ ts) best n each h =
      let cs = (candidates_from s n t venue_id).0 in
      let noted = (candidates_from s n t venue_id).1 in
      let next = consider_all s c venue_id venue_name t best cs in
      elim (Bool-cases (source_enabled s c t)) [
        | inr off ↦ rw off (try_sources-Has ts best n each h)
        | inl on ↦
            let better = consider_all-Has t best cs (each t on) h in
            elim (Bool-cases (has_candidates s cs && is_settled s next)) [
              | inl stop ↦ rw (on, stop) better
              | inr more ↦ rw (on, more) (try_sources-Has ts next noted each better)
            ]
      ]
