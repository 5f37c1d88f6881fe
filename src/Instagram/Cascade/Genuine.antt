-- ===== src/Instagram/Cascade/Genuine.antt =====
-- Candidates that the judge has seen or not: what they keep of the source and of the probe.
use cs_server.Prelude.{◌≡◌, refl, ap, ◌∙◌, inl, inr, true, false, Option, none, some, Bool-cases}
use cs_server.Python.Regex.{Text}
use cs_server.Instagram.Handles.{Source}
use cs_server.Instagram.Judge.{Verdict}
use cs_server.Instagram.Data.{
  CascadeResult, Service, Config, Probe, JudgeClient, existence_of, is_absent,
}
use cs_server.Instagram.Scoring.{
  candidate, with_verdict, ask_judge, adjudicate, should_adjudicate, settle, bar_of, threshold_of,
}
use cs_server.Instagram.Cascade.{source_enabled}

-- A handle of a source that is on, whose profile is not known to be absent, with the bar of what is
-- known of the profile.
pub record IsGenuine (s : Service) (c : Config) (r : CascadeResult) : Type 0 where
  pub tier : Source
  pub from_tier : r.source ≡ some tier
  pub enabled : source_enabled s c tier ≡ true
  pub name : Text
  pub has_name : r.handle ≡ some name
  pub there : is_absent r.profile_exists ≡ false
  pub bar : threshold_of s r.signals ≡ bar_of s r.profile_exists

-- Where two results are of the same handle.
pub record SameHandle (a b : CascadeResult) : Type 0 where
  pub handles : b.handle ≡ a.handle
  pub sources : b.source ≡ a.source
  pub profiles : b.profile_exists ≡ a.profile_exists
  pub signals : b.signals ≡ a.signals

SameHandle-refl : (r : CascadeResult) → SameHandle r r
SameHandle-refl r = record { handles = refl; sources = refl; profiles = refl; signals = refl }

-- The judge changes the confidence alone, besides what it notes of itself.
with_verdict-SameHandle :
    (s : Service) (r : CascadeResult) (v : Option Verdict) → SameHandle r (with_verdict s r v)
with_verdict-SameHandle s r none = record {
  handles = refl;
  sources = refl;
  profiles = refl;
  signals = refl;
}
with_verdict-SameHandle s r (some v) = record {
  handles = refl;
  sources = refl;
  profiles = refl;
  signals = refl;
}

ask_judge-SameHandle :
    (s : Service) (r : CascadeResult) (p : Option Probe) (j : Option JudgeClient)
    → SameHandle r (ask_judge s r p j)
ask_judge-SameHandle s r p none = with_verdict-SameHandle s r none
ask_judge-SameHandle s r p (some j) = with_verdict-SameHandle s r _

adjudicate-SameHandle :
    (s : Service) (r : CascadeResult) (p : Option Probe) → SameHandle r (adjudicate s r p)
unfolding adjudicate
adjudicate-SameHandle s r p = ask_judge-SameHandle s r p s.judge_client

pub settle-SameHandle :
    (s : Service) (c : Config) (r : CascadeResult) (p : Option Probe)
    → SameHandle r (settle s c r p)
settle-SameHandle s c r p =
    elim (Bool-cases (should_adjudicate s c r.confidence (threshold_of s r.signals))) [
      | inl e ↦ rw e (adjudicate-SameHandle s r p)
      | inr e ↦ rw e (SameHandle-refl r)
    ]

pub candidate-IsGenuine :
    (s : Service) (c : Config) (venue_id : Text) (venue_name : Option Text) (t : Source)
    (p : Option Probe) (h : Text) (display : Option Text)
    → source_enabled s c t ≡ true
    → is_absent (existence_of p) ≡ false
    → IsGenuine s c (candidate s venue_id venue_name t p h display)
unfolding candidate
candidate-IsGenuine s c venue_id venue_name t p h display on there = record {
  tier = t;
  from_tier = refl;
  enabled = on;
  name = h;
  has_name = refl;
  there = there;
  bar = refl;
}

pub IsGenuine-same :
    (s : Service) (c : Config) (a b : CascadeResult)
    → SameHandle a b
    → IsGenuine s c a
    → IsGenuine s c b
IsGenuine-same s c a b same g = record {
  tier = g.tier;
  from_tier = same.sources ∙ g.from_tier;
  enabled = g.enabled;
  name = g.name;
  has_name = same.handles ∙ g.has_name;
  there = ap is_absent same.profiles ∙ g.there;
  bar = rw (same.signals, same.profiles) g.bar;
}
