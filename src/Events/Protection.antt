-- ===== src/Events/Protection.antt =====
-- The field-level rules of app/services/event_reconciliation.py: what counts as absent, the table that
-- protects an operator's edits, and the update of a confirmed row.
pub mod Table
pub mod Confirmed
use cs_server.Prelude.{
  ℕ, String, Bool, true, false, not, ◌&&◌, ◌||◌, Option, none, some, List, [], ◌∷◌, str_eq, leb,
  elem, if◌then◌else◌,
}
use cs_server.Events.Row.{
  Row, Value, null, text, raw, texts, acts, empty, put, get, is_null, value_eq, texts_eq, acts_eq,
  texts_of, acts_of, num,
}
use cs_server.Events.Identity.{TextTables}
use cs_server.Events.Unions.{union_lineup, union_attractions}

abbrev pub protectable_event_fields : List String
protectable_event_fields =
    "starts_at" ∷ "ends_at" ∷ "is_recurring" ∷ "recurrence_text" ∷ "title" ∷ "description"
    ∷ "ticket_url" ∷ "price_text" ∷ "location_text" ∷ "confidence" ∷ "ticket_info" ∷ []

-- `raw_extraction["time_known"]`, true where the entry is missing.
abbrev known_time : Value → Bool
known_time (raw (some b)) = b
known_time _ = true

unfoldable event_time_known : Row → Bool
event_time_known event = known_time (get event "raw_extraction")

-- `value in (None, "")`
abbrev pub is_blank : Value → Bool
is_blank null = true
is_blank (text t) = str_eq t ""
is_blank _ = false

unfoldable pub event_field_is_absent : String → Value → Row → Bool
unfolding event_time_known
event_field_is_absent field value event =
    if str_eq field "starts_at" && not (is_null value)
    then not (event_time_known event)
    else is_blank value

abbrev pub Rule : Type 0
Rule = String → Value → Value → Bool

abbrev pub Resolve : Type 0
Resolve = String → Value → Value → Value

-- One round of the loop over the fields, on the changed fields and the divergence seen so far.
module _ (existing new : Row) (values_equal : Rule) (resolve_conflict : Resolve) where
  unfoldable pub protect_field : String → Row × Bool → Row × Bool
  protect_field field acc =
      let new_value = get new field in
      let existing_value = get existing field in
      let resolved = resolve_conflict field existing_value new_value in
      if event_field_is_absent field new_value new
      then acc
      else (if values_equal field new_value existing_value
          then acc
          else (if elem field (texts_of (get existing "operator_edited_fields"))
              then (acc.0, true)
              else (if not (values_equal field resolved existing_value)
                  then (put field resolved acc.0, acc.1)
                  else acc)))

  unfoldable pub protect_fields : List String → Row × Bool → Row × Bool
  unfolding protect_field
  protect_fields [] acc = acc
  protect_fields (f ∷ fs) acc = protect_fields fs (protect_field f acc)

  unfoldable pub apply_operator_field_protection : List String → Row × Bool
  unfolding protect_fields
  apply_operator_field_protection fields = protect_fields fields (empty, false)

abbrev text_fields : List String
text_fields =
    "title" ∷ "description" ∷ "recurrence_text" ∷ "ticket_url" ∷ "price_text" ∷ "location_text"
    ∷ "ticket_info" ∷ []

-- `value or None` of a text column.
abbrev pub or_none : Value → Value
or_none (text t) = if str_eq t "" then null else text t
or_none v = v

unfoldable pub values_equal : Rule
values_equal field a b =
    if elem field text_fields then value_eq (or_none a) (or_none b) else value_eq a b

-- The unions of the two list columns, written where they differ from what is stored.
abbrev pub put_lineup : Row → Row → Row → Row
put_lineup existing new changed =
    let old = texts_of (get existing "lineup") in
    let merged = union_lineup old (texts_of (get new "lineup")) in
    if texts_eq merged old then changed else put "lineup" (texts merged) changed

module _ (u : TextTables) where
  abbrev pub put_attractions : Row → Row → Row → Row
  put_attractions existing new changed =
      let old = acts_of (get existing "attractions") in
      let merged = union_attractions u old (acts_of (get new "attractions")) in
      if acts_eq merged old then changed else put "attractions" (acts merged) changed

  -- A row with no record of an operator's edits is frozen; of it only title and start are compared.
  unfoldable pub confirmed_update_fields : Row → Row → Row × Bool
  unfolding apply_operator_field_protection values_equal
  confirmed_update_fields existing prepared =
      let title_diverges =
        not (value_eq (or_none (get prepared "title")) (or_none (get existing "title"))) in
      let date_diverges = not (value_eq (get prepared "starts_at") (get existing "starts_at")) in
      let table =
        apply_operator_field_protection existing prepared values_equal (λ f old new. new)
          protectable_event_fields in
      if is_null (get existing "operator_edited_fields")
      then (empty, title_diverges || date_diverges)
      else (put_attractions existing prepared (put_lineup existing prepared table.0), table.1)

-- `not review_reason`
abbrev pub no_reason : Value → Bool
no_reason null = true
no_reason (text t) = str_eq t ""
no_reason _ = false

abbrev pub at_least : ℕ → Value → Bool
at_least floor (num n) = leb floor n
at_least floor _ = false

unfoldable pub is_clean_extraction : Value → Value → Value → Value → ℕ → Bool
is_clean_extraction review_reason starts_at venue_id confidence min_confidence =
    no_reason review_reason
    && not (is_null starts_at)
    && not (is_null venue_id)
    && at_least min_confidence confidence
