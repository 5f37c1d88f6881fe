-- ===== src/Instagram/Samples.antt =====
-- Services, settings and a store for the concrete runs of the discovery of handles.
use cs_server.Prelude.{ℕ, true, false, Option, none, some, [], if◌then◌else◌}
use cs_server.Python.Except.{ok}
use cs_server.Python.Ascii.{ascii}
use cs_server.Python.Json.{codes}
use cs_server.Python.Regex.{Text}
use cs_server.Python.Text.{text_eq}
use cs_server.Instagram.Handles.{google_search}
use cs_server.Instagram.Judge.{percent}
use cs_server.Instagram.Similarity.{Names, billion}
use cs_server.Instagram.Data.{
  Service, Config, answered, default_accept, default_ambiguous_low, default_judge_floor,
}
use cs_server.Instagram.Cascade.{Dao}

-- A ratio that knows equality alone.
abbrev pub exact : Text → Text → ℕ
exact a b = if text_eq a b then billion else 0

abbrev pub names : Names
names = record { unicode = ascii; nfkd = λ t. t; ratio = exact }

-- A search that always finds the same page.
abbrev pub page : Text
page = codes "https://www.instagram.com/zepelim/"

abbrev pub parsed : Text → Option (Text × Text)
parsed t = some (codes "www.instagram.com", codes "/zepelim/")

-- Without a probe, and without a judge.
abbrev pub shipped : Service
shipped = record {
  accept_threshold = default_accept;
  ambiguous_low = default_ambiguous_low;
  judge_floor = default_judge_floor;
  names = names;
  urlparse = parsed;
  reader = λ t. elim t [ google_search ↦ some (λ v. answered (some page)) | _ ↦ none ];
  paid_search = none;
  probe = none;
  judge_client = none;
  venue_photos = λ v. [];
}

abbrev pub fresh : Config
fresh = record { force_refresh = false; judge_disabled = false; disabled = λ t. false }

abbrev pub venue : Text
venue = codes "v1"

abbrev pub empty_dao : Dao
empty_dao = record {
  get_venue = λ v. ok (some (codes "Zepelim"));
  get_venue_instagram = λ v. ok none;
  saves = λ v. true;
}

-- The same with the threshold 0.8.
abbrev pub strict : Service
strict = record shipped { accept_threshold = percent 80 }
