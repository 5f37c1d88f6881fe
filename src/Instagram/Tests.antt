-- ===== src/Instagram/Tests.antt =====
-- The theorems on the discovery of handles at concrete inputs, and runs of it.
use cs_server.Prelude.{
  ℕ, ◌≡◌, refl, Bool, true, false, Option, none, some, [], ◌∷◌, if◌then◌else◌, arith,
}
use cs_server.Python.Except.{Result, ok, raised}
use cs_server.Python.Ascii.{ascii}
use cs_server.Python.Json.{codes}
use cs_server.Python.Text.{text_eq}
use cs_server.Instagram.Handles.{
  google_website, archived_gmaps, venue_website, apify_search, google_search, extract_handle,
  link_shim,
}
use cs_server.Instagram.Judge.{Mode, Verdict, text_only, unavailable, percent}
use cs_server.Instagram.Similarity.{Names, billion, name_similarity}
use cs_server.Instagram.Similarity.Bounds.{IsRatio}
use cs_server.Instagram.Data.{
  Service, Config, CascadeResult, VenueInstagram, Status, found, low_confidence, answered, present,
  unknown,
}
use cs_server.Instagram.Cascade.{Dao, Discovered, discover, repeated}
use cs_server.Instagram.Cascade.Accepted.{IsJudged, discover-IsJudged}
use cs_server.Instagram.Cascade.Paid.{discover-vouched}
use cs_server.Instagram.Cascade.Repeated.{discover-repeats}
use cs_server.Instagram.Samples.{names, page, shipped, fresh, venue, empty_dao, strict}

shim_run :
    extract_handle ascii
      (λ t. some (codes "l.instagram.com", []))
      (some (codes "l.instagram.com/?u=x"))
    ≡ (none, some link_shim)
unfolding extract_handle
shim_run = refl

similarity_run :
    name_similarity names (some (codes "Zepelim")) none (some (codes "zepelim")) ≡ billion
unfolding name_similarity
similarity_run = refl

-- The guess of the search, with its confidence, its bar and what the judge said.
abbrev guess : ℕ → ℕ → Bool → Option Verdict → Option Mode → CascadeResult
guess confidence bar accepted verdict mode = record {
  venue_id = venue;
  handle = some (codes "zepelim");
  source = some google_search;
  accepted = accepted;
  confidence = confidence;
  signals = some (record {
    provenance = percent 20;
    profile_exists = 0;
    name_similarity = billion;
    effective_threshold = bar;
    existence_checked = false;
  });
  profile_exists = unknown;
  display_name = none;
  judge = verdict;
  judge_mode = mode;
  notes = record {
    rejections = [];
    tier_errors = [];
    tier_unavailable = google_website ∷ archived_gmaps ∷ venue_website ∷ apify_search ∷ [];
  };
}

abbrev stored_as : CascadeResult → Status → VenueInstagram
stored_as r status = record {
  venue_id = venue;
  instagram_handle = r.handle;
  instagram_url = some (codes "https://instagram.com/zepelim");
  confidence_score = r.confidence;
  status = status;
  source = r.source;
  discovery = r;
}

-- With the threshold as it is shipped, 0.75, a name that agrees entirely is enough for a guess of
-- the web search: no judge has seen it.
shipped_run :
    discover shipped empty_dao fresh venue
    ≡ ok (
      guess (percent 60) (percent 60) true none none,
      some (stored_as (guess (percent 60) (percent 60) true none none) found),
    )
unfolding discover name_similarity
shipped_run = refl

-- With 0.8 it is not: without a judge the guess stays weak.
abbrev weak : CascadeResult
weak = guess (percent 60) (percent 65) false none (some unavailable)

weak_run : discover strict empty_dao fresh venue ≡ ok (weak, some (stored_as weak low_confidence))
unfolding discover name_similarity
weak_run = refl

-- A judge that sees no picture and is sure.
abbrev judged : Service
judged = record strict {
  judge_client = some (record {
    ask = λ h d m i ps. some (record { is_match = true; confidence = percent 95; reason = none });
    max_photos = 3;
  });
}

abbrev certain : Verdict
certain = record { mode = text_only; is_match = true; confidence = percent 80; reason = none }

abbrev vouched : CascadeResult
vouched = guess (percent 80) (percent 65) true (some certain) (some text_only)

vouched_run : discover judged empty_dao fresh venue ≡ ok (vouched, some (stored_as vouched found))
unfolding discover name_similarity
vouched_run = refl

exact-IsRatio : IsRatio names
exact-IsRatio a b = ground arith

discover-IsJudged_example : IsJudged strict fresh weak (stored_as weak low_confidence)
discover-IsJudged_example =
    discover-IsJudged strict fresh empty_dao venue weak (stored_as weak low_confidence) weak_run

discover-vouched_example : (w : Verdict) × ((some certain ≡ some w) × (w.is_match ≡ true))
discover-vouched_example =
    discover-vouched judged fresh empty_dao venue vouched (stored_as vouched found) google_search
      (omega arith) exact-IsRatio vouched_run refl refl refl

abbrev later_dao : Dao
later_dao = record empty_dao {
  get_venue_instagram = λ v. ok (some (stored_as weak low_confidence));
}

discover-repeats_example :
    (false ≡ false)
    × ((discover strict later_dao fresh venue ≡ ok (repeated (stored_as weak low_confidence), none))
        × ((repeated (stored_as weak low_confidence)).accepted ≡ true))
discover-repeats_example =
    discover-repeats strict fresh fresh empty_dao later_dao venue (some (codes "Zepelim")) weak
      (stored_as weak low_confidence) weak_run refl refl refl refl refl

-- A link on the venue's website to a profile that exists and is named a little alike, and the guess of
-- the search, whose profile cannot be looked at.
abbrev half_alike : Names
half_alike = record names { ratio = λ a b. (if text_eq a b then billion else 400000000) }

abbrev two_sources : Service
two_sources = record shipped {
  names = half_alike;
  urlparse = λ t.
      some (codes "instagram.com", if text_eq t page then codes "/zepelim/" else codes "/grupox/");
  reader = λ t. elim t [
    | google_search ↦ some (λ v. answered (some page))
    | venue_website ↦ some (λ v. answered (some (codes "https://instagram.com/grupox")))
    | _ ↦ none
  ];
  probe = some λ h. record {
    existence = if text_eq h (codes "grupox") then present else unknown;
    display_name = none;
    image_url = none;
  };
}

abbrev outcome_of : Result Discovered → Option (Bool × ℕ)
outcome_of (ok (r, v)) = some (r.accepted, r.confidence)
outcome_of (raised e) = none

-- The guess clears its own bar, but the website's handle has the higher confidence, and misses its bar.
lost_run : outcome_of (discover two_sources empty_dao fresh venue) ≡ some (false, percent 71)
unfolding discover name_similarity
lost_run = refl

-- Without the website the guess is accepted.
abbrev no_website : Config
no_website = record fresh { disabled = λ t. elim t [ venue_website ↦ true | _ ↦ false ] }

kept_run : outcome_of (discover two_sources empty_dao no_website venue) ≡ some (true, percent 60)
unfolding discover name_similarity
kept_run = refl
