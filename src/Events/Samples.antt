-- ===== src/Events/Samples.antt =====
-- Attractions and a manual link at concrete inputs.
use cs_server.Prelude.{◌≡◌, refl, sym, ap, ◌∙◌, inl, inr, false, ◌||◌, none, some, List, [], ◌∷◌}
use cs_server.Python.Json.{codes}
use cs_server.Events.Row.{Attraction, Row, null, text, instant, empty, put, get}
use cs_server.Events.Posts.{Caller}
use cs_server.Events.Reconcile.{reconcile_post_events}
use cs_server.Events.Reconcile.Writes.{All}
use cs_server.Events.Reconcile.Manual.{
  NoLink, SameResolution, KeepsManual, reconcile_post_events-KeepsManual,
}
use cs_server.Events.Identity.{TextTables, normalize_title, strip, collapse}
use cs_server.Events.Unions.{
  union_attractions, change_first, absorb, add_new, new_slot, place, place_all,
}
use cs_server.Events.Unions.Acts.{names, union_attractions-names}

-- Names that are normal already.
abbrev plain : TextTables
plain = record {
  code_points = codes;
  casefold = λ cs. cs;
  nfkd = λ cs. cs;
  is_combining = λ c. false;
  is_space = λ c. false;
  isoformat = λ day. [];
  digest = λ cs. "";
}

abbrev teaser : List Attraction
teaser = record { name = "ana"; type = "other"; stage = none; styles = "samba" ∷ [] } ∷ []

abbrev flyer : List Attraction
flyer =
    record { name = "ana"; type = "dj"; stage = some "pista"; styles = "funk" ∷ [] }
    ∷ record { name = "ana"; type = "live"; stage = some "palco"; styles = [] }
    ∷ []

-- The teaser's act gets the first stage of the flyer; the second stage is a slot of its own.
union_run :
    union_attractions plain teaser flyer
    ≡ record { name = "ana"; type = "dj"; stage = some "pista"; styles = "samba" ∷ "funk" ∷ [] }
      ∷ record { name = "ana"; type = "live"; stage = some "palco"; styles = [] }
      ∷ []
unfolding union_attractions place_all place change_first absorb add_new new_slot normalize_title
    strip collapse
union_run = refl

union_attractions-names_example :
    names plain (codes "ana") (union_attractions plain teaser flyer)
    ≡ (names plain (codes "ana") teaser || names plain (codes "ana") flyer)
union_attractions-names_example = union_attractions-names plain (codes "ana") teaser flyer

abbrev caller : Caller (List Row)
caller = record {
  post = record {
    source_kind = "venue";
    source_handle = "clube";
    source_shortcode = "abc";
    source_permalink = null;
  };
  now = instant 2 0;
  min_confidence = 500;
  attribute = λ fields id. (put "venue_id" (text "venue_b") empty, some []);
  fresh_id = λ n. "evt_2";
}

-- An event that an operator linked to a venue, under the key of the extraction below.
abbrev linked : Row
linked = put "event_id" (text "evt_1") (
    put "location_resolution" (text "manual")
      (put "venue_id" (text "venue_a") (put "source_event_key" (text "") empty)))

abbrev extracted : Row
extracted = put "title" (text "noite") (put "starts_at" (instant 4 0) empty)

extracted-NoLink : NoLink extracted
extracted-NoLink = record {
  venue = refl;
  resolution = refl;
  confidence = refl;
  linked_by = refl;
  linked_at = refl;
}

one_row : SameResolution (linked ∷ [])
one_row r s (inl p) (inl q) e = ap (λ (x : Row). get x "location_resolution") (p ∙ sym q)
one_row r s (inl p) (inr h) e = absurd h
one_row r s (inr h) hs e = absurd h

reconcile_post_events-KeepsManual_example :
    All
      (KeepsManual (linked ∷ []))
      (reconcile_post_events plain caller (linked ∷ []) (extracted ∷ [])).writes
reconcile_post_events-KeepsManual_example =
    reconcile_post_events-KeepsManual plain caller (linked ∷ []) (extracted ∷ []) one_row
      (extracted-NoLink, tt)
