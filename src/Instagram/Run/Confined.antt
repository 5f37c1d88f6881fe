-- ===== src/Instagram/Run/Confined.antt =====
-- A run counts every venue once, and stores nothing of any other one.
use cs_server.Prelude.{
  ◌+◌, ◌≡◌, refl, ap, sym, ◌∙◌, false, Option, none, some, List, [], ◌∷◌, length, Bool-cases, inl,
  inr, arith,
}
use cs_server.Python.Except.{Result, ok, raised}
use cs_server.Python.Regex.{Text}
use cs_server.Python.Text.{text_eq, is_one_of}
use cs_server.Instagram.Handles.{Source, source_order}
use cs_server.Instagram.Data.{
  CascadeResult, VenueInstagram, JudgeClient, Service, Config, Probe, Notes, no_notes, probed,
}
use cs_server.Instagram.Scoring.{
  candidate, with_verdict, ask_judge, adjudicate, settle, should_adjudicate, threshold_of,
}
use cs_server.Instagram.Cascade.{Dao, Discovered, finalize, persist, discover}
use cs_server.Instagram.Cascade.Best.{Has, try_sources-Has}
use cs_server.Instagram.Cascade.Accepted.{looked, discover-looked}
use cs_server.Instagram.Judge.{Verdict}
use cs_server.Instagram.Run.Requested.{asked, is_asked, select-length, is_one_of-select}
use cs_server.Instagram.Run.{
  Summary, no_venues, VenueIds, parse_venue_ids, select, counted, run_all, run,
}

-- What every round keeps.
abbrev Balanced : Summary → Type 0
Balanced m = m.considered ≡ m.accepted + m.not_found + m.errors

counted-Balanced :
    (d : Result Discovered) (dao : Dao) (m : Summary) → Balanced m → Balanced (counted d (dao, m)).1
counted-Balanced (raised x) dao m h = ground arith
counted-Balanced (ok (r, v)) dao m h = ground arith

counted-considered :
    (d : Result Discovered) (dao : Dao) (m : Summary)
    → (counted d (dao, m)).1.considered ≡ m.considered + 1
counted-considered (raised x) dao m = refl
counted-considered (ok (r, v)) dao m = ground arith

-- A result of this venue.
abbrev IsOf : Text → CascadeResult → Type 0
IsOf v r = r.venue_id ≡ v

with_verdict-IsOf :
    (s : Service) (r : CascadeResult) (v : Option Verdict)
    → (with_verdict s r v).venue_id ≡ r.venue_id
with_verdict-IsOf s r none = refl
with_verdict-IsOf s r (some v) = refl

ask_judge-IsOf :
    (s : Service) (r : CascadeResult) (p : Option Probe) (j : Option JudgeClient)
    → (ask_judge s r p j).venue_id ≡ r.venue_id
ask_judge-IsOf s r p none = refl
ask_judge-IsOf s r p (some j) = with_verdict-IsOf s r _

module _ (s : Service) (c : Config) where
  run_all-counts :
      (vs : List Text) (dao : Dao) (m : Summary)
      → Balanced m
      → Balanced (run_all s c vs (dao, m)).1
        × ((run_all s c vs (dao, m)).1.considered ≡ m.considered + length vs)
  unfolding run_all
  run_all-counts [] dao m h = (h, omega arith)
  run_all-counts (v ∷ vs) dao m h =
      let d = discover s dao c v in
      let next = counted d (dao, m) in
      let (even, all_of_them) = run_all-counts vs next.0 next.1 (counted-Balanced d dao m h) in
      (even, ground (arith, all_of_them, counted-considered d dao m))

  settled-IsOf :
      (v : Text) (name : Option Text) (t : Source) (p : Option Probe) (h : Text)
      (display : Option Text)
      → IsOf v (settle s c (candidate s v name t p h display) p)
  unfolding candidate adjudicate
  settled-IsOf v name t p h display =
      let r = candidate s v name t p h display in
      elim (Bool-cases (should_adjudicate s c r.confidence (threshold_of s r.signals))) [
        | inl e ↦ rw e (ask_judge-IsOf s r p s.judge_client)
        | inr e ↦ rw e refl
      ]

  finalize-IsOf :
      (v : Text) (o : Option CascadeResult) (n : Notes)
      → Has (IsOf v) o
      → (finalize s v (o, n)).1.venue_id ≡ v
  unfolding finalize persist
  finalize-IsOf v none n h = refl
  finalize-IsOf v (some b) n h = h

  -- What a discovery stores is of the venue that it was for.
  discover-IsOf :
      (dao : Dao) (v : Text) (r : CascadeResult) (w : VenueInstagram)
      → discover s dao c v ≡ ok (r, some w)
      → w.venue_id ≡ v
  discover-IsOf dao v r w e =
      let (name, same) = discover-looked s c dao v r w e in
      let best = looked s c v name in
      let has =
        try_sources-Has (IsOf v) s c v name source_order none no_notes
          (λ t on h display there. settled-IsOf v name t (probed s.probe h) h display) tt in
      ap (λ x. x.1.venue_id) (sym same) ∙ finalize-IsOf v best.0 best.1 has

  counted-elsewhere :
      (d : Result Discovered) (dao : Dao) (m : Summary) (v j : Text)
      → ((r : CascadeResult) (w : VenueInstagram) → d ≡ ok (r, some w) → w.venue_id ≡ v)
      → text_eq v j ≡ false
      → (counted d (dao, m)).0.get_venue_instagram j ≡ dao.get_venue_instagram j
  counted-elsewhere (raised x) dao m v j own other = refl
  counted-elsewhere (ok (r, none)) dao m v j own other = refl
  counted-elsewhere (ok (r, some w)) dao m v j own other =
      elim (Bool-cases (dao.saves w.venue_id)) [
        | inl e ↦ rw (e, own r w refl, other) refl
        | inr e ↦ rw e refl
      ]

  run_all-elsewhere :
      (vs : List Text) (dao : Dao) (m : Summary) (j : Text)
      → is_one_of j vs ≡ false
      → (run_all s c vs (dao, m)).0.get_venue_instagram j ≡ dao.get_venue_instagram j
  unfolding run_all is_one_of
  run_all-elsewhere [] dao m j h = refl
  run_all-elsewhere (v ∷ vs) dao m j h =
      let d = discover s dao c v in
      let next = counted d (dao, m) in
      run_all-elsewhere vs next.0 next.1 j (ground arith)
      ∙ counted-elsewhere d dao m v j (λ r w e. discover-IsOf dao v r w e) (ground arith)

  -- A run counts each venue of the catalogue, or each one that was asked for by its id: as accepted,
  -- as not found, as an error, or as not served.
  run-counts :
      (catalogue : List Text) (raw : VenueIds) (dao : Dao)
      → Balanced (run s c catalogue raw dao).1
        × ((run s c catalogue raw dao).1.considered
              + length (select catalogue (parse_venue_ids s.names.unicode raw)).1
            ≡ asked catalogue (parse_venue_ids s.names.unicode raw))
  unfolding run
  run-counts catalogue raw dao =
      let chosen = select catalogue (parse_venue_ids s.names.unicode raw) in
      let (even, all_of_them) = run_all-counts chosen.0 dao (no_venues (length chosen.1)) refl in
      (
        even,
        omega (arith, all_of_them, select-length catalogue (parse_venue_ids s.names.unicode raw)),
      )

  -- A run leaves what is stored for a venue alone unless the venue is in the catalogue and, where any
  -- are asked for by their ids, is among these.
  pub run-elsewhere :
      (catalogue : List Text) (raw : VenueIds) (dao : Dao) (j : Text)
      → is_asked catalogue (parse_venue_ids s.names.unicode raw) j ≡ false
      → (run s c catalogue raw dao).0.get_venue_instagram j ≡ dao.get_venue_instagram j
  unfolding run
  run-elsewhere catalogue raw dao j h =
      let ids = parse_venue_ids s.names.unicode raw in
      run_all-elsewhere (select catalogue ids).0 dao _ j (is_one_of-select catalogue ids j ∙ h)
