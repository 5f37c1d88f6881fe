-- ===== src/Instagram/Cascade/Accepted.antt =====
-- What an accepted handle has behind it, and what of a result is stored.
use cs_server.Prelude.{
  ◌≤◌, ◌<◌, ◌≡◌, refl, subst, inl, inr, Bool, true, false, Option, none, some, leb, Bool-cases,
  arith,
}
use cs_server.Python.Except.{Result, ok, raised}
use cs_server.Python.Regex.{Text}
use cs_server.Instagram.Handles.{Source, source_order}
use cs_server.Instagram.Data.{
  Status, CascadeResult, Service, Config, Notes, found, low_confidence, not_found, VenueInstagram,
  probed, no_notes,
}
use cs_server.Instagram.Scoring.{candidate, settle, clears, bar_of}
use cs_server.Instagram.Cascade.{
  source_enabled, try_sources, finalize, persist, Dao, answer, discover,
}
use cs_server.Instagram.Cascade.Best.{Has, EachCandidate, try_sources-Has}
use cs_server.Instagram.Cascade.Genuine.{
  IsGenuine, IsGenuine-same, settle-SameHandle, candidate-IsGenuine,
}

-- What a status says of a result and of what is stored of it.
abbrev pub JudgedAs : Service → Config → Status → CascadeResult → VenueInstagram → Type 0
JudgedAs s c found r v =
    (r.accepted ≡ true)
    × (IsGenuine s c r
        × ((bar_of s r.profile_exists ≤ r.confidence) × (v.instagram_handle ≡ r.handle)))
JudgedAs s c low_confidence r v =
    (r.accepted ≡ false)
    × (IsGenuine s c r
        × ((s.ambiguous_low ≤ r.confidence)
            × ((r.confidence < bar_of s r.profile_exists) × (v.instagram_handle ≡ r.handle))))
JudgedAs s c not_found r v = (r.accepted ≡ false) × (v.instagram_handle ≡ none)

-- That of the status that is stored.
abbrev pub IsJudged : Service → Config → CascadeResult → VenueInstagram → Type 0
IsJudged s c r v = JudgedAs s c v.status r v

module _ (s : Service) (c : Config) where
  IsGenuine-settled :
      (b : CascadeResult) (n : Notes) (y : Bool)
      → IsGenuine s c b
      → IsGenuine s c (record b { notes = n; accepted = y })
  IsGenuine-settled b n y g = record {
    tier = g.tier;
    from_tier = g.from_tier;
    enabled = g.enabled;
    name = g.name;
    has_name = g.has_name;
    there = g.there;
    bar = g.bar;
  }

  finalize-IsJudged :
      (venue_id : Text) (o : Option CascadeResult) (n : Notes)
      → Has (IsGenuine s c) o
      → IsJudged s c (finalize s venue_id (o, n)).0 (finalize s venue_id (o, n)).1
  unfolding finalize persist
  finalize-IsJudged venue_id none n h = (refl, refl)
  finalize-IsJudged venue_id (some b) n h =
      let bar = h.bar in
      elim (Bool-cases (clears s b)) [
        | inl up ↦ rw up (refl, (IsGenuine-settled b n true h, (ground arith, refl)))
        | inr down ↦ elim (Bool-cases (leb s.ambiguous_low b.confidence)) [
          | inl low ↦
              rw (down, low)
                (refl, (IsGenuine-settled b n false h, (ground arith, (ground arith, refl))))
          | inr none_at_all ↦ rw (down, none_at_all) (refl, refl)
        ]
      ]

  IsGenuine-candidate :
      (venue_id : Text) (venue_name : Option Text) (t : Source)
      → source_enabled s c t ≡ true
      → EachCandidate (IsGenuine s c) s c venue_id venue_name t
  IsGenuine-candidate venue_id venue_name t on h display there =
      let p = probed s.probe h in
      IsGenuine-same s c (candidate s venue_id venue_name t p h display)
        (settle s c (candidate s venue_id venue_name t p h display) p)
        (settle-SameHandle s c (candidate s venue_id venue_name t p h display) p)
        (candidate-IsGenuine s c venue_id venue_name t p h display on there)

  -- The loops, from where a venue has to be looked for.
  abbrev pub looked : Text → Option Text → Option CascadeResult × Notes
  looked venue_id venue_name = try_sources s c venue_id venue_name source_order none no_notes

  answer-looked :
      (dao : Dao) (force : Bool) (look : Option Text → CascadeResult × VenueInstagram)
      (name : Result (Option Text)) (old : Result (Option VenueInstagram)) (r : CascadeResult)
      (v : VenueInstagram)
      → answer s dao force look name old ≡ ok (r, some v)
      → (n : Option Text) × (look n ≡ (r, v))
  answer-looked dao force look (raised x) old r v e = absurd (cc e)
  answer-looked dao true look (ok name) old r v e = (name, cc e)
  answer-looked dao false look (ok name) (raised x) r v e = absurd (cc e)
  answer-looked dao false look (ok name) (ok none) r v e = (name, cc e)
  answer-looked dao false look (ok name) (ok (some x)) r v e = absurd (cc e)

  -- A discovery that stores something has run the loops.
  pub discover-looked :
      (dao : Dao) (venue_id : Text) (r : CascadeResult) (v : VenueInstagram)
      → discover s dao c venue_id ≡ ok (r, some v)
      → (name : Option Text) × (finalize s venue_id (looked venue_id name) ≡ (r, v))
  unfolding discover
  discover-looked dao venue_id r v e =
      answer-looked dao c.force_refresh (λ name. finalize s venue_id (looked venue_id name))
        (dao.get_venue venue_id) (dao.get_venue_instagram venue_id) r v e

  -- A discovery that stores something stores `found` exactly where it accepts the handle. A handle
  -- that is found or weak is stored; it comes from a source that is on, its profile is not known to be
  -- absent, and its confidence reaches the bar for what is known of the profile, or stays below it and
  -- reaches the lower bound of weak results. Under `not_found` no handle is stored.
  pub discover-IsJudged :
      (dao : Dao) (venue_id : Text) (r : CascadeResult) (v : VenueInstagram)
      → discover s dao c venue_id ≡ ok (r, some v)
      → IsJudged s c r v
  discover-IsJudged dao venue_id r v e =
      let (name, same) = discover-looked dao venue_id r v e in
      let best = looked venue_id name in
      let has =
        try_sources-Has (IsGenuine s c) s c venue_id name source_order none no_notes
          (IsGenuine-candidate venue_id name) tt in
      subst (λ (r', v'). IsJudged s c r' v') same (finalize-IsJudged venue_id best.0 best.1 has)
