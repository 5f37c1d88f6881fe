-- ===== src/Instagram/Scoring.antt =====
-- `_threshold_for`, `_score`, `_should_adjudicate` and `_adjudicate` of
-- app/services/instagram_cascade_service.py.
use cs_server.Prelude.{
  ℕ, ◌+◌, ◌-◌, ◌*◌, Bool, false, not, ◌&&◌, Option, none, some, leb, ltb, if◌then◌else◌,
}
use cs_server.Python.Regex.{Text}
use cs_server.Python.Round.{round_to}
use cs_server.Instagram.Handles.{Source}
use cs_server.Instagram.Judge.{unavailable, Verdict, percent, cap_for_mode, judge}
use cs_server.Instagram.Similarity.{min, name_similarity}
use cs_server.Instagram.Data.{
  provenance_weight, existence_bonus, name_weight, Existence, Probe, Signals, CascadeResult,
  JudgeClient, Service, Config, no_notes, or_text, shown_by, existence_of, checked, bonus_of,
}

module _ (s : Service) where
  abbrev threshold_for : Existence → ℕ
  threshold_for e = if checked e then s.accept_threshold else s.accept_threshold - existence_bonus

  -- `round(…, 4)` of a threshold.
  abbrev pub bar_of : Existence → ℕ
  bar_of e = round_to 10000000 (threshold_for e)

  abbrev pub sum_of : Source → Existence → ℕ → ℕ
  sum_of t e sim = min (provenance_weight t + bonus_of e + name_weight * sim) (percent 100)

  abbrev signals_of : Source → Existence → ℕ → Signals
  signals_of t e sim = record {
    provenance = provenance_weight t;
    profile_exists = bonus_of e;
    name_similarity = round_to 100000 sim;
    effective_threshold = bar_of e;
    existence_checked = checked e;
  }

  -- The candidate as it is scored, before any judge.
  unfoldable pub candidate :
      Text → Option Text → Source → Option Probe → Text → Option Text → CascadeResult
  unfolding name_similarity round_to
  candidate venue_id venue_name t p h display =
      let shown = or_text display (shown_by p) in
      let sim = name_similarity s.names venue_name shown (some h) in
      record {
        venue_id = venue_id;
        handle = some h;
        source = some t;
        accepted = false;
        confidence = sum_of t (existence_of p) sim;
        signals = some (signals_of t (existence_of p) sim);
        profile_exists = existence_of p;
        display_name = shown;
        judge = none;
        judge_mode = none;
        notes = no_notes;
      }

  abbrev pub should_adjudicate : Config → ℕ → ℕ → Bool
  should_adjudicate c confidence bar =
      not c.judge_disabled && (leb s.judge_floor confidence && ltb confidence bar)

  abbrev image_of : Option Probe → Option Text
  image_of none = none
  image_of (some p) = p.image_url

  abbrev pub with_verdict : CascadeResult → Option Verdict → CascadeResult
  with_verdict cand none = record cand { judge_mode = some unavailable }
  with_verdict cand (some v) = record cand {
    judge = some v;
    judge_mode = some v.mode;
    confidence =
        cap_for_mode v.mode (if v.is_match then v.confidence else min cand.confidence (percent 40));
  }

  abbrev pub ask_judge : CascadeResult → Option Probe → Option JudgeClient → CascadeResult
  ask_judge cand p none = record cand { judge_mode = some unavailable }
  ask_judge cand p (some j) = with_verdict cand (
      judge (j.ask cand.handle cand.display_name) j.max_photos (image_of p)
        (s.venue_photos cand.venue_id))

  unfoldable pub adjudicate : CascadeResult → Option Probe → CascadeResult
  unfolding cap_for_mode judge
  adjudicate cand p = ask_judge cand p s.judge_client

  abbrev pub threshold_of : Option Signals → ℕ
  threshold_of none = s.accept_threshold
  threshold_of (some g) = g.effective_threshold

  -- Whether a result clears its own bar.
  abbrev pub clears : CascadeResult → Bool
  clears r = leb (threshold_of r.signals) r.confidence

  abbrev pub settle : Config → CascadeResult → Option Probe → CascadeResult
  settle c cand p =
      let judged = adjudicate cand p in
      if should_adjudicate c cand.confidence (threshold_of cand.signals) then judged else cand
