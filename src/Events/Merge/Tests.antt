-- ===== src/Events/Merge/Tests.antt =====
-- A merge at concrete tables.
use cs_server.Prelude.{String, ◌≡◌, refl, [], ◌∷◌, false, map}
use cs_server.Python.Except.{ok}
use cs_server.Events.Row.{Row, text, instant, put, empty}
use cs_server.Events.Identity.{TextTables, compute_event_identity, normalize_title}
use cs_server.Events.Posts.{event_id_of}
use cs_server.Python.Json.{codes}
use cs_server.Events.Merge.{
  later, points_lt, oldest, protected_events, fold_fields, fold_field, values_agree,
}
use cs_server.Events.Protection.{event_field_is_absent}
use cs_server.Events.Unions.{union_attractions, union_lineup}
use cs_server.Events.Merge.Store.{
  Source, Store, primary, first_seen, merge_touched_events, needs_update,
}
use cs_server.Events.Merge.Provenance.{Keeps, merge_touched_events-Keeps}

abbrev plain : TextTables
plain = record {
  code_points = codes;
  casefold = λ t. t;
  nfkd = λ t. t;
  is_combining = λ c. false;
  is_space = λ c. false;
  isoformat = λ d. d ∷ [];
  digest = λ t. "";
}

-- One event on one day at one venue, from two posts.
abbrev event : String → Row
event id = put "event_id" (text id) (
    put "venue_id" (text "venue_a")
      (put "title" (text "noite") (put "starts_at" (instant 4 0) empty)))

abbrev source : String → String → Source
source id event_id = record {
  id = id;
  event = event_id;
  first_seen_at = instant 1 0;
  last_seen_at = instant 2 0;
  columns = empty;
}

abbrev two_posts : Store
two_posts = record {
  events = event "evt_1" ∷ event "evt_2" ∷ [];
  sources = source "src_1" "evt_1" ∷ source "src_2" "evt_2" ∷ [];
  candidates = "evt_2" ∷ [];
}

merge_touched_events-Keeps_example :
    ((merge_touched_events plain ("evt_2" ∷ []) two_posts).0 ≡ ok tt)
    × Keeps two_posts (merge_touched_events plain ("evt_2" ∷ []) two_posts).1
merge_touched_events-Keeps_example = merge_touched_events-Keeps plain ("evt_2" ∷ []) two_posts

-- The older event survives, with both sources.
merged_sources :
    (merge_touched_events plain ("evt_2" ∷ []) two_posts).1.sources
    ≡ source "src_1" "evt_1" ∷ source "src_2" "evt_1" ∷ []
unfolding merge_touched_events compute_event_identity points_lt normalize_title protected_events
    oldest primary first_seen later needs_update fold_fields fold_field event_field_is_absent
    values_agree union_attractions union_lineup
merged_sources = refl

merged_events :
    map event_id_of (merge_touched_events plain ("evt_2" ∷ []) two_posts).1.events ≡ "evt_1" ∷ []
unfolding merge_touched_events compute_event_identity points_lt normalize_title protected_events
    oldest primary first_seen later needs_update fold_fields fold_field event_field_is_absent
    values_agree union_attractions union_lineup
merged_events = refl
