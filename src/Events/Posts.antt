-- ===== src/Events/Posts.antt =====
-- What `reconcile_post_events` of app/services/event_reconciliation.py is given of a post, what it
-- writes, and the states of its loops, with the small functions that it asks of rows.
use cs_server.Prelude.{
  ℕ, String, Bool, true, false, not, ◌&&◌, ◌||◌, Option, none, some, List, [], ◌∷◌, ◌==◌, str_eq,
  elem, if◌then◌else◌,
}
use cs_server.Events.Row.{Row, Value, null, text, get}
use cs_server.Events.Identity.{
  TextTables, normalize_title, points_eq, day_of, compute_source_event_key,
}

-- A write of the store: a new row, a partial update of the event with an id, or the callback that the
-- attribution asked to run once its row is written.
pub data Write (Hook : Type 0) : Type 0 where
  insert : Row → Write Hook
  update : String → Row → Write Hook
  run : Hook → Write Hook

pub record Post : Type 0 where
  pub source_kind : String
  pub source_handle : String
  pub source_shortcode : String
  pub source_permalink : Value

abbrev pub is_text : String → Value → Bool
is_text t (text s) = str_eq s t
is_text t _ = false

abbrev pub text_of : Value → String
text_of (text t) = t
text_of _ = ""

abbrev pub event_id_of : Row → String
event_id_of row = text_of (get row "event_id")

abbrev pub is_confirmed : Row → Bool
is_confirmed row = is_text "confirmed" (get row "status")

abbrev pub is_manual : Row → Bool
is_manual row = is_text "manual" (get row "location_resolution")

abbrev pub is_protected : Row → Bool
is_protected row = is_confirmed row || is_manual row

abbrev pub value_or : Value → Option Value → Value
value_or d none = d
value_or d (some v) = v

abbrev pub same_day : Option ℕ → Option ℕ → Bool
same_day (some d) (some e) = d == e
same_day _ _ = false

abbrev pub xor : Bool → Bool → Bool
xor true b = not b
xor false b = b

abbrev pub or_first : Option Row → Option Row → Option Row
or_first (some r) s = some r
or_first none s = s

-- `existing_by_key.get(key)`: of rows with one key the last is kept.
unfoldable pub find_by_key : String → List Row → Option Row
find_by_key key [] = none
find_by_key key (r ∷ rs) =
    or_first (find_by_key key rs) (if is_text key (get r "source_event_key") then some r else none)

-- What the loops build: the writes so far, the ids that are handled, the number of events persisted,
-- the ids for `touched_event_ids`, and how many fresh ids were taken.
pub record Run (Hook : Type 0) : Type 0 where
  pub writes : List (Write Hook)
  pub handled : List String
  pub persisted : ℕ
  pub touched : List String
  pub minted : ℕ

-- A fresh event that no row has the key of: its place in the post, its row and its key.
abbrev pub Pending : Type 0
Pending = ℕ × Row × String

module _ (u : TextTables) where
  unfoldable pub key_of : Row → String
  key_of prepared = compute_source_event_key u (get prepared "title") (get prepared "starts_at")

  unfoldable pub plausibly_same_event : Row → Row → Bool
  plausibly_same_event existing prepared =
      xor
        (points_eq (normalize_title u (get prepared "title"))
          (normalize_title u (get existing "title")))
        (same_day (day_of (get existing "starts_at")) (day_of (get prepared "starts_at")))

-- `fields.setdefault(k, None)`
abbrev pub set_default : String → Row → Row
set_default k fields j = if str_eq k j then some (value_or null (fields j)) else fields j

abbrev pub with_link_columns : Row → Row
with_link_columns fields = set_default "linked_at" (
    set_default "linked_by" (
      set_default "location_confidence"
        (set_default "location_resolution" (set_default "venue_id" fields))))

abbrev pub hook_write : {Hook : Type 0} → Option Hook → List (Write Hook)
hook_write none = []
hook_write (some h) = run h ∷ []

unfoldable pub orphaned_protected : List String → List Row → List Row
orphaned_protected handled [] = []
orphaned_protected handled (r ∷ rs) =
    let rest = orphaned_protected handled rs in
    if not (elem (event_id_of r) handled) && is_protected r then r ∷ rest else rest

abbrev pub start : {Hook : Type 0} → Run Hook
start = record { writes = []; handled = []; persisted = 0; touched = []; minted = 0 }

-- The first loop's state: the keys seen in this run, and the fresh events that no row has the key of.
pub record Matching (Hook : Type 0) : Type 0 where
  pub seen : List String
  pub current : Run Hook
  pub pending : List Pending

abbrev pub begin : {Hook : Type 0} → Matching Hook
begin = record { seen = []; current = start; pending = [] }

-- What the caller passes: the post, the time, the confidence floor, the attribution, and the ids that
-- `new_event_id` would give in turn.
pub record Caller (Hook : Type 0) : Type 0 where
  pub post : Post
  pub now : Value
  pub min_confidence : ℕ
  pub attribute : Row → String → Row × Option Hook
  pub fresh_id : ℕ → String
