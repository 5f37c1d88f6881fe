-- ===== src/Events/Merge.antt =====
-- The merge of app/services/event_merge.py: which event of a group survives, and how the fields of
-- another are folded into it.
pub mod Canonical
pub mod Fields
pub mod Store
pub mod Linked
pub mod There
pub mod Provenance
mod Tests
use cs_server.Prelude.{
  ℕ, String, Bool, true, false, not, ◌&&◌, ◌||◌, Option, none, some, List, [], ◌∷◌, ◌==◌, ltb,
  str_eq, if◌then◌else◌,
}
use cs_server.Python.Json.{codes}
use cs_server.Events.Row.{Row, Value, null, text, instant, empty, put, get, is_null, value_eq}
use cs_server.Events.Identity.{TextTables, normalize_title, points_eq}
use cs_server.Events.Protection.{
  protectable_event_fields, event_field_is_absent, apply_operator_field_protection, put_lineup,
  put_attractions, Rule,
}
use cs_server.Events.Posts.{event_id_of, is_confirmed, is_protected}

-- `a > b` of two `last_seen_at`; a row without an instant is older than any.
unfoldable pub later : Value → Value → Bool
later (instant d m) (instant e n) = ltb e d || d == e && ltb n m
later (instant d m) _ = true
later _ _ = false

-- The order of texts, by code points.
unfoldable pub points_lt : List ℕ → List ℕ → Bool
points_lt [] [] = false
points_lt [] (b ∷ bs) = true
points_lt (a ∷ as') [] = false
points_lt (a ∷ as') (b ∷ bs) = ltb a b || a == b && points_lt as' bs

abbrev pub id_lt : Row → Row → Bool
id_lt a b = points_lt (codes (event_id_of a)) (codes (event_id_of b))

-- `min(events, key=…)`: the first of the least.
unfoldable pub oldest : Row → List Row → Row
oldest e [] = e
oldest e (x ∷ xs) = oldest (if id_lt x e then x else e) xs

unfoldable pub protected_events : List Row → List Row
protected_events [] = []
protected_events (e ∷ es) =
    let rest = protected_events es in if is_protected e then e ∷ rest else rest

abbrev pub sole_or : List Row → Row → Option Row
sole_or [] old = some old
sole_or (p ∷ []) old = some p
sole_or (p ∷ q ∷ ps) old = none

-- The group is the event and its siblings, so it is never empty.
unfoldable pub choose_canonical : Row → List Row → Option Row
choose_canonical event siblings =
    sole_or (protected_events (event ∷ siblings)) (oldest event siblings)

module _ (u : TextTables) where
  -- Titles agree where they normalise alike.
  unfoldable pub values_agree : Rule
  values_agree field a b =
      if str_eq field "title"
      then points_eq (normalize_title u a) (normalize_title u b)
      else value_eq a b

  -- One round of the loop over the fields of a canonical event that is not confirmed.
  unfoldable pub fold_field : Row → Row → String → Row × Bool → Row × Bool
  fold_field canonical duplicate field acc =
      let c_val = get canonical field in
      let d_val = get duplicate field in
      let c_empty = event_field_is_absent field c_val canonical in
      let d_empty = event_field_is_absent field d_val duplicate in
      let recent =
        if later (get duplicate "last_seen_at") (get canonical "last_seen_at")
        then d_val
        else c_val in
      if c_empty && not d_empty
      then (put field d_val acc.0, acc.1)
      else (if d_empty || values_agree field c_val d_val
          then acc
          else (put field recent acc.0, true))

  unfoldable pub fold_fields : Row → Row → List String → Row × Bool → Row × Bool
  fold_fields canonical duplicate [] acc = acc
  fold_fields canonical duplicate (f ∷ fs) acc =
      fold_fields canonical duplicate fs (fold_field canonical duplicate f acc)

  -- Some field of the list that the duplicate states differs from the canonical's.
  unfoldable pub legacy_diverges : Row → Row → List String → Bool
  legacy_diverges canonical duplicate [] = false
  legacy_diverges canonical duplicate (f ∷ fs) =
      not (event_field_is_absent f (get duplicate f) duplicate)
        && not (values_agree f (get duplicate f) (get canonical f))
      || legacy_diverges canonical duplicate fs

  abbrev with_lists : Row → Row → Row → Row
  with_lists canonical duplicate changed =
      put_attractions u canonical duplicate (put_lineup canonical duplicate changed)

  abbrev reason_if : Bool → String → Row → Value
  reason_if b reason canonical = if b then text reason else get canonical "review_reason"

  -- The more recently seen of the two wins a conflict on a field that no operator edited.
  abbrev pub resolve_by_recency : Row → Row → String → Value → Value → Value
  resolve_by_recency canonical duplicate field existing_value new_value =
      if later (get duplicate "last_seen_at") (get canonical "last_seen_at")
      then new_value
      else existing_value

  -- The changed fields, and the review reason that the canonical event gets.
  unfoldable pub merge_event_fields : Row → Row → Row × Value
  merge_event_fields canonical duplicate =
      let legacy = legacy_diverges canonical duplicate protectable_event_fields in
      let table =
        apply_operator_field_protection canonical duplicate values_agree
          (resolve_by_recency canonical duplicate) protectable_event_fields in
      let folded = fold_fields canonical duplicate protectable_event_fields (empty, false) in
      if is_confirmed canonical
      then (if is_null (get canonical "operator_edited_fields")
          then (empty, reason_if legacy "model_diverges_from_confirmed_record" canonical)
          else (
            with_lists canonical duplicate table.0,
            reason_if table.1 "model_diverges_from_confirmed_record" canonical,
          ))
      else (
        with_lists canonical duplicate folded.0,
        reason_if folded.1 "sources_disagree" canonical,
      )
