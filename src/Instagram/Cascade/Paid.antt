-- ===== src/Instagram/Cascade/Paid.antt =====
-- A guess of a paid search is not accepted by its name alone.
use cs_server.Prelude.{
  ℕ, ◌-◌, ◌*◌, ◌≤◌, ◌<◌, ◌≡◌, refl, inl, inr, true, false, Option, none, some, Bool-cases, arith,
  ap, sym, ◌∙◌,
}
use cs_server.Python.Except.{ok}
use cs_server.Python.Regex.{Text}
use cs_server.Python.Round.{round_to}
use cs_server.Instagram.Handles.{
  Source, google_website, archived_gmaps, venue_website, apify_search, google_search, is_paid,
  source_order,
}
use cs_server.Instagram.Judge.{
  Verdict, Mode, vision_both, vision_partial, text_only, unavailable, percent, cap_for_mode,
}
use cs_server.Instagram.Similarity.{billion, min}
use cs_server.Instagram.Similarity.Bounds.{IsRatio, name_similarity-le}
use cs_server.Instagram.Data.{
  provenance_weight, existence_bonus, CascadeResult, Service, Config, Probe, JudgeClient, Existence,
  present, absent, unknown, blocked, VenueInstagram, existence_of, no_notes, or_text, shown_by,
  Notes, probed,
}
use cs_server.Instagram.Scoring.{
  candidate, with_verdict, ask_judge, adjudicate, should_adjudicate, settle, clears, bar_of, sum_of,
  threshold_of,
}
use cs_server.Instagram.Cascade.{Dao, discover, finalize}
use cs_server.Instagram.Cascade.Best.{Has, EachCandidate, try_sources-Has}
use cs_server.Instagram.Cascade.Genuine.{settle-SameHandle}
use cs_server.Instagram.Cascade.Accepted.{looked, discover-looked}

round_to-ge : (k x : ℕ) → k * 10000000 ≤ x → k * 10000000 ≤ round_to 10000000 x
unfolding round_to
round_to-ge k x h = ground arith

-- The threshold exceeds what a paid source and a perfect name make up together, by a last digit.
abbrev IsStrict : Service → Type 0
IsStrict s = 7501 * 10000000 ≤ s.accept_threshold

-- A paid result that clears its bar has the judge's word that it is a match.
abbrev IsVouched : Service → CascadeResult → Type 0
IsVouched s r =
    (t : Source)
    → r.source ≡ some t
    → is_paid t ≡ true
    → clears s r ≡ true
    → (v : Verdict) × ((r.judge ≡ some v) × (v.is_match ≡ true))

paid_weight : (t : Source) → is_paid t ≡ true → provenance_weight t ≡ percent 20
paid_weight google_website h = absurd (cc h)
paid_weight archived_gmaps h = absurd (cc h)
paid_weight venue_website h = absurd (cc h)
paid_weight apify_search h = refl
paid_weight google_search h = refl

sum-below :
    (s : Service) (t : Source) (e : Existence) (sim : ℕ)
    → IsStrict s
    → is_paid t ≡ true
    → sim ≤ billion
    → sum_of s t e sim < bar_of s e
sum-below s t present sim strict paid h =
    ground (arith, paid_weight t paid, round_to-ge 7501 s.accept_threshold strict)
sum-below s t absent sim strict paid h =
    ground (arith, paid_weight t paid, round_to-ge 7501 s.accept_threshold strict)
sum-below s t unknown sim strict paid h = ground (
  arith,
  paid_weight t paid,
  round_to-ge 6001 (s.accept_threshold - existence_bonus) (omega arith),
)
sum-below s t blocked sim strict paid h = ground (
  arith,
  paid_weight t paid,
  round_to-ge 6001 (s.accept_threshold - existence_bonus) (omega arith),
)

-- A verdict against the match does not raise the confidence.
cap_for_mode-le : (m : Mode) (x : ℕ) → cap_for_mode m x ≤ x
unfolding cap_for_mode
cap_for_mode-le vision_both x = omega arith
cap_for_mode-le vision_partial x = omega arith
cap_for_mode-le text_only x = ground arith
cap_for_mode-le unavailable x = omega arith

module _ (s : Service) (c : Config) where
  -- A result below its bar that no judge has seen.
  abbrev IsBelow : CascadeResult → Type 0
  IsBelow r = r.confidence < threshold_of s r.signals

  not-clears : (r : CascadeResult) → IsBelow r → clears s r ≡ false
  not-clears r h = ground arith

  with_verdict-IsVouched :
      (r : CascadeResult) (v : Option Verdict) → IsBelow r → IsVouched s (with_verdict s r v)
  with_verdict-IsVouched r none h t from paid up = absurd (cc (up, not-clears r h))
  with_verdict-IsVouched r (some v) h t from paid up = elim (Bool-cases v.is_match) [
    | inl yes_match ↦ (v, (refl, yes_match))
    | inr no_match ↦ ground (arith, cap_for_mode-le v.mode (min r.confidence (percent 40)))
  ]

  ask_judge-IsVouched :
      (r : CascadeResult) (p : Option Probe) (j : Option JudgeClient)
      → IsBelow r
      → IsVouched s (ask_judge s r p j)
  ask_judge-IsVouched r p none h = with_verdict-IsVouched r none h
  ask_judge-IsVouched r p (some j) h = with_verdict-IsVouched r _ h

  settle-IsVouched :
      (r : CascadeResult) (p : Option Probe) → IsBelow r → IsVouched s (settle s c r p)
  unfolding adjudicate
  settle-IsVouched r p h =
      elim (Bool-cases (should_adjudicate s c r.confidence (threshold_of s r.signals))) [
        | inl e ↦ rw e (ask_judge-IsVouched r p s.judge_client h)
        | inr e ↦ rw e (λ t from paid up. absurd (cc (up, not-clears r h)))
      ]

  candidate-IsBelow :
      (venue_id : Text) (venue_name : Option Text) (t : Source) (p : Option Probe) (h : Text)
      (display : Option Text)
      → IsStrict s
      → IsRatio s.names
      → is_paid t ≡ true
      → IsBelow (candidate s venue_id venue_name t p h display)
  unfolding candidate
  candidate-IsBelow venue_id venue_name t p h display strict ratio paid =
      sum-below s t (existence_of p) _ strict paid
        (name_similarity-le s.names venue_name (or_text display (shown_by p)) (some h) ratio)

  candidate-source :
      (venue_id : Text) (venue_name : Option Text) (t : Source) (p : Option Probe) (h : Text)
      (display : Option Text)
      → (candidate s venue_id venue_name t p h display).source ≡ some t
  unfolding candidate
  candidate-source venue_id venue_name t p h display = refl

  IsVouched-candidate :
      (venue_id : Text) (venue_name : Option Text) (t : Source)
      → IsStrict s
      → IsRatio s.names
      → EachCandidate (IsVouched s) s c venue_id venue_name t
  IsVouched-candidate venue_id venue_name t strict ratio h display there =
      let p = probed s.probe h in
      let r = candidate s venue_id venue_name t p h display in
      elim (Bool-cases (is_paid t)) [
        | inl paid ↦
            settle-IsVouched r p
              (candidate-IsBelow venue_id venue_name t p h display strict ratio paid)
        | inr free ↦ λ u from paid up.
            let same = (settle-SameHandle s c r p).sources in
            let own = candidate-source venue_id venue_name t p h display in
            absurd (cc (free, paid, from, same, own))
      ]

  IsVouched-finalize :
      (venue_id : Text) (o : Option CascadeResult) (n : Notes)
      → Has (IsVouched s) o
      → (finalize s venue_id (o, n)).0.accepted ≡ true
      → (t : Source) → (finalize s venue_id (o, n)).0.source ≡ some t
      → is_paid t ≡ true
      → (v : Verdict) × (((finalize s venue_id (o, n)).0.judge ≡ some v) × (v.is_match ≡ true))
  unfolding finalize
  IsVouched-finalize venue_id none n h up t from paid = absurd (cc up)
  IsVouched-finalize venue_id (some b) n h up t from paid = h t from paid up

  -- Where the threshold of acceptance is at least 0.7501 and no ratio of two texts is above one: a
  -- handle that a run accepts from a paid search has a verdict of the judge that it is a match,
  -- however alike the names are and whether or not the profile is known to exist.
  pub discover-vouched :
      (dao : Dao) (venue_id : Text) (r : CascadeResult) (v : VenueInstagram) (t : Source)
      → IsStrict s
      → IsRatio s.names
      → discover s dao c venue_id ≡ ok (r, some v)
      → r.accepted ≡ true
      → r.source ≡ some t
      → is_paid t ≡ true
      → (w : Verdict) × ((r.judge ≡ some w) × (w.is_match ≡ true))
  discover-vouched dao venue_id r v t strict ratio e up from paid =
      let (name, same) = discover-looked s c dao venue_id r v e in
      let best = looked s c venue_id name in
      let has =
        try_sources-Has (IsVouched s) s c venue_id name source_order none no_notes
          (λ u on. IsVouched-candidate venue_id name u strict ratio) tt in
      let result : (finalize s venue_id best).0 ≡ r = ap (λ x. x.0) same in
      let out =
        IsVouched-finalize venue_id best.0 best.1 has (ap (λ x. x.accepted) result ∙ up) t
          (ap (λ x. x.source) result ∙ from) paid in
      (out.0, (ap (λ x. x.judge) (sym result) ∙ out.1.0, out.1.1))
