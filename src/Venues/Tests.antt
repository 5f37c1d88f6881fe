-- ===== src/Venues/Tests.antt =====
-- The theorems on the venues of events at concrete inputs, and runs.
use cs_server.Prelude.{◌≡◌, refl, String, none, some, List, [], ◌∷◌, map, if◌then◌else◌}
use cs_server.Python.Ascii.{ascii}
use cs_server.Python.Json.{codes}
use cs_server.Python.Regex.{finditer_from, search_from}
use cs_server.Python.Text.{text_eq}
use cs_server.Instagram.Similarity.{Names, billion, name_similarity}
use cs_server.Venues.Mentions.{HandleIndex, extract_mentions}
use cs_server.Venues.Links.{
  VenueLite, ResolutionResult, default_confidence_floor, default_margin, queued, name_match,
}
use cs_server.Venues.Resolution.{Place, resolve_event_venue}
use mathlib.Core.List.{Perm}
use cs_server.Venues.Ranking.{Scored, candidate_of, name_match_candidates}
use cs_server.Venues.Resolution.Ranked.{similar, Ordered, name_match_candidates-IsRanking}
use cs_server.Venues.Resolution.Answers.{Ladder, Answers}
use cs_server.Venues.Resolution.Sound.{resolve_event_venue-Answers}
use cs_server.Venues.Markers.{date, weekday_time, term, find_event_markers}

-- A ratio that knows equality alone, and no distances.
abbrev names : Names
names = record {
  unicode = ascii;
  nfkd = λ t. t;
  ratio = λ a b. (if text_eq a b then billion else 0);
}

abbrev venue : String → String → VenueLite
venue i name = record { venue_id = codes i; venue_name = codes name; lat = none; lng = none }

abbrev venues : List VenueLite
venues = venue "v1" "Zepelim" ∷ venue "v2" "Estelita" ∷ venue "v3" "Estelita" ∷ []

abbrev index : HandleIndex
index = (some (codes "zepelim"), codes "v1") ∷ (some (codes "festa"), codes "v2") ∷ []

abbrev place : String → String → Place
place caption location = record {
  caption = some (codes caption);
  location_text = some (codes location);
  tag = none;
  promoter_handle = some (codes "@Festa");
}

abbrev resolve : String → String → ResolutionResult
resolve caption location =
    resolve_event_venue names (λ a b. 0) (place caption location) venues index
      default_confidence_floor default_margin

-- The first mention is an address, the second one the promoter's own.
mentions_run :
    extract_mentions ascii (some (codes "a@bar.com, @festa, @Zepelim"))
    ≡ codes "festa" ∷ codes "zepelim" ∷ []
unfolding extract_mentions finditer_from
mentions_run = refl

mention_run : (resolve "a@bar.com, @festa, @Zepelim" "Estelita").venue_id ≡ some (codes "v1")
unfolding resolve_event_venue extract_mentions finditer_from
mention_run = refl

-- Two venues of one name.
queued_run : (resolve "" "Estelita").resolution ≡ queued
unfolding resolve_event_venue extract_mentions name_similarity
queued_run = refl

name_run : (resolve "" "Zepelim").method ≡ some name_match
unfolding resolve_event_venue extract_mentions name_similarity
name_run = refl

abbrev ladder : Ladder
ladder = record {
  names = names;
  haversine = λ a b. 0;
  place = place "@zepelim" "Estelita";
  venues = venues;
  index = index;
  floor = default_confidence_floor;
  margin = default_margin;
}

resolve_event_venue-Answers_example : Answers ladder (resolve "@zepelim" "Estelita")
resolve_event_venue-Answers_example = resolve_event_venue-Answers ladder

markers_run :
    find_event_markers ascii (some (codes "Sexta 22h, ingressos no Sympla dia 15/08"))
    ≡ date
      ∷ weekday_time
      ∷ term (codes "ingressos")
      ∷ term (codes "ingresso")
      ∷ term (codes "sympla")
      ∷ []
unfolding find_event_markers search_from
markers_run = refl

name_match_candidates-IsRanking_example :
    (ranked : List Scored) × ((name_match_candidates names
          (λ a b. 0)
          (some (codes "Estelita"))
          venues
          none
        ≡ map (candidate_of (codes "Estelita")) ranked)
      × (Perm ranked (similar names (λ a b. 0) (codes "Estelita") none venues) × Ordered ranked))
name_match_candidates-IsRanking_example =
    name_match_candidates-IsRanking names (λ a b. 0) (codes "Estelita") venues none refl
