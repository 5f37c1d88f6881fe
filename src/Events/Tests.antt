-- ===== src/Events/Tests.antt =====
-- The events' theorems at concrete inputs, and runs of the modelled functions.
use cs_server.Prelude.{
  String, ◌≡◌, ◌≢◌, ◌↔◌, ◌⊎◌, ◌≤◌, inl, inr, refl, sym, ◌∙◌, ap, eq_iff, true, false, none, some,
  List, [], ◌∷◌, ◌++◌, arith, elem, ◌||◌, ◌==◌, Distinct, if◌then◌else◌,
}
use cs_server.Events.Row.{Row, Value, null, text, num, instant, texts, empty, put, get, is_null}
use cs_server.Events.Identity.{
  compute_source_event_key, normalize_title, payload, day_of, strip, collapse,
}
use cs_server.Events.Unions.{union_lineup}
use cs_server.Events.Unions.Lineup.{union_lineup-laws}
use cs_server.Events.Protection.{
  values_equal, protectable_event_fields, apply_operator_field_protection, confirmed_update_fields,
  event_field_is_absent,
}
use cs_server.Events.Protection.Table.{
  decided, any_divergence, apply_operator_field_protection_table,
}
use cs_server.Events.Protection.Confirmed.{
  edited_by_operator, list_columns, united, confirmed_update_fields_protects,
}
use cs_server.Events.Posts.{Caller, event_id_of, is_confirmed, is_protected}
use cs_server.Events.Reconcile.{reconcile_post_events}
use cs_server.Events.Reconcile.Writes.{All, In}
use cs_server.Events.Reconcile.Confirmed.{
  Coherent, KeepsConfirmed, reconcile_post_events-KeepsConfirmed,
}
use cs_server.Events.Reconcile.Frozen.{is_frozen}
use cs_server.Events.Reconcile.Accepted.{Settles, reconcile_post_events-Settles}
use cs_server.Events.Merge.{choose_canonical, merge_event_fields}
use cs_server.Events.Merge.Canonical.{count_protected, IsSole, IsOldest, choose_canonical-cases}
use cs_server.Events.Merge.Fields.{OnlyMerged, merge_event_fields_protects}
use cs_server.Events.Identity.Payload.{compute_source_event_key-eq}
use cs_server.Events.Ascii.{ascii, ascii-DateText}

same_payload :
    payload ascii (text "Noite da  Patroa") (instant 3 0)
    ≡ payload ascii (text " noite da patroa") (instant 3 1320)
unfolding payload normalize_title strip collapse
same_payload = refl

compute_source_event_key-eq_example :
    (compute_source_event_key ascii (text "Noite da  Patroa") (instant 3 0)
      ≡ compute_source_event_key ascii (text " noite da patroa") (instant 3 1320))
    ↔ ((normalize_title ascii (text "Noite da  Patroa")
          ≡ normalize_title ascii (text " noite da patroa"))
        × (day_of (instant 3 0) ≡ day_of (instant 3 1320)))
compute_source_event_key-eq_example =
    compute_source_event_key-eq ascii (text "Noite da  Patroa") (text " noite da patroa")
      (instant 3 0) (instant 3 1320) ascii-DateText (λ h. same_payload)

abbrev first_acts : List String
first_acts = "Ana" ∷ "Bia" ∷ []

abbrev later_acts : List String
later_acts = "Bia" ∷ "Caio" ∷ []

union_lineup-laws_example :
    ((x : String)
      → elem x (union_lineup first_acts later_acts) ≡ (elem x first_acts || elem x later_acts))
    × Distinct (union_lineup first_acts later_acts)
    × (Distinct first_acts
        → (rest : List String) × (union_lineup first_acts later_acts ≡ first_acts ++ rest))
    × (union_lineup (union_lineup first_acts later_acts) later_acts
        ≡ union_lineup first_acts later_acts)
union_lineup-laws_example = union_lineup-laws first_acts later_acts

-- A confirmed event whose title an operator edited.
abbrev stored : Row
stored = put "event_id" (text "evt_1") (
    put "status" (text "confirmed") (
      put "title" (text "Noite da Patroa") (
        put "starts_at" (instant 3 1320) (
          put "price_text" (text "R$ 20") (
            put "source_event_key" (text "xxxx")
              (put "operator_edited_fields" (texts ("title" ∷ [])) empty))))))

-- A fresh extraction of the same post, with another title, a price and nothing else.
abbrev fresh : Row
fresh =
    put "title" (text "Patroa")
      (put "price_text" (text "R$ 30") (put "starts_at" (instant 3 0) empty))

abbrev fresh_wins : String → Value → Value → Value
fresh_wins f old new = new

apply_operator_field_protection_table_example :
    let r =
      apply_operator_field_protection stored fresh values_equal fresh_wins
        protectable_event_fields in
    ((g : String)
      → r.0 g ≡ (
          if elem g protectable_event_fields
          then decided stored fresh values_equal fresh_wins g
          else none))
    × (r.1 ≡ any_divergence stored fresh values_equal fresh_wins protectable_event_fields)
apply_operator_field_protection_table_example =
    apply_operator_field_protection_table stored fresh values_equal fresh_wins
      protectable_event_fields

confirmed_update_fields_protects_example :
    let changed = (confirmed_update_fields ascii stored fresh).0 in
    (changed "price_text" ≡ none)
    ⊎ ((is_null (get stored "operator_edited_fields") ≡ false)
        × (((list_columns "price_text" ≡ true)
              × (changed "price_text" ≡ some (united ascii stored fresh "price_text")))
            ⊎ ((list_columns "price_text" ≡ false)
                × (changed "price_text" ≡ some (get fresh "price_text"))
                × (elem "price_text" protectable_event_fields ≡ true)
                × (edited_by_operator stored "price_text" ≡ false)
                × (event_field_is_absent "price_text" (get fresh "price_text") fresh ≡ false))))
confirmed_update_fields_protects_example =
    confirmed_update_fields_protects ascii stored fresh "price_text"

abbrev caller : Caller (List Row)
caller = record {
  post = record {
    source_kind = "venue";
    source_handle = "clube";
    source_shortcode = "abc";
    source_permalink = null;
  };
  now = instant 2 0;
  min_confidence = 500;
  attribute = λ fields id. (put "venue_id" (text "venue_a") empty, some []);
  fresh_id = λ n. if n == 0 then "evt_2" else "evt_3";
}

abbrev placeholder : Row
placeholder = put "event_id" (text "evt_0") empty

abbrev rows : List Row
rows = stored ∷ placeholder ∷ []

abbrev dated : Row
dated =
    put "title" (text "Outra") (put "starts_at" (instant 4 0) (put "confidence" (num 900) empty))

abbrev extracted : List Row
extracted = fresh ∷ dated ∷ fresh ∷ []

ids_differ : ◌≢◌ {A = String} "evt_1" "evt_0"
ids_differ e = ground (arith, eq_iff "evt_1" "evt_0")

columns_agree :
    (k : String) (r s : Row)
    → In r rows
    → In s rows
    → event_id_of r ≡ event_id_of s
    → get r k ≡ get s k
columns_agree k r s (inl p) (inl q) e = ap (λ (x : Row). get x k) (p ∙ sym q)
columns_agree k r s (inl p) (inr (inl q)) e =
    absurd (ids_differ (sym (ap event_id_of p) ∙ e ∙ ap event_id_of q))
columns_agree k r s (inl p) (inr (inr h)) e = absurd h
columns_agree k r s (inr (inl p)) (inl q) e =
    absurd (ids_differ (sym (ap event_id_of q) ∙ sym e ∙ ap event_id_of p))
columns_agree k r s (inr (inl p)) (inr (inl q)) e = ap (λ (x : Row). get x k) (p ∙ sym q)
columns_agree k r s (inr (inl p)) (inr (inr h)) e = absurd h
columns_agree k r s (inr (inr h)) hs e = absurd h

rows-Coherent : Coherent rows
rows-Coherent = record {
  same_status = columns_agree "status";
  same_edits = columns_agree "operator_edited_fields";
}

reconcile_post_events-KeepsConfirmed_example :
    All (KeepsConfirmed rows) (reconcile_post_events ascii caller rows extracted).writes
reconcile_post_events-KeepsConfirmed_example =
    reconcile_post_events-KeepsConfirmed ascii caller rows extracted rows-Coherent

reconcile_post_events-Settles_example :
    All (Settles rows 500) (reconcile_post_events ascii caller rows extracted).writes
reconcile_post_events-Settles_example = reconcile_post_events-Settles ascii caller rows extracted

abbrev older : Row
older =
    put "event_id" (text "evt_0")
      (put "title" (text "noite da patroa") (put "ticket_url" (text "sympla") empty))

choose_canonical-cases_example :
    ((choose_canonical older (stored ∷ []) ≡ none) × (2 ≤ count_protected (older ∷ stored ∷ [])))
    ⊎ ((c : Row) × (choose_canonical older (stored ∷ []) ≡ some c) × IsSole c (older ∷ stored ∷ []))
    ⊎ ((c : Row) × (choose_canonical older (stored ∷ []) ≡ some c)
        × IsOldest c (older ∷ stored ∷ [])
        × All (λ (r : Row). is_protected r ≡ false) (older ∷ stored ∷ []))
choose_canonical-cases_example = choose_canonical-cases older (stored ∷ [])

merge_event_fields_protects_example :
    let changed = (merge_event_fields ascii stored older).0 in
    OnlyMerged ascii stored older "lineup" (changed "lineup")
    × (is_confirmed stored ≡ true → is_frozen stored "lineup" ≡ true → changed "lineup" ≡ none)
merge_event_fields_protects_example = merge_event_fields_protects ascii stored older "lineup"
