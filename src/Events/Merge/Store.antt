-- ===== src/Events/Merge/Store.antt =====
-- `merge_touched_events` and `_merge_one` of app/services/event_merge.py over the tables of events, of
-- their sources and of their venue candidates, with the statements of app/dao/rds_venue_store.py that
-- they run. A row that a source or a candidate refers to cannot be deleted.
use cs_server.Prelude.{
  String, Bool, true, false, not, ◌&&◌, ◌||◌, Option, none, some, List, [], ◌∷◌, ◌==◌, str_eq, elem,
  if◌then◌else◌,
}
use cs_server.Python.Except.{Exec, ok, raised, integrity_error, attribute_error, pure, ◌>>=◌}
use cs_server.Events.Row.{Row, Value, null, instant, put, merge, get, value_eq}
use cs_server.Python.Json.{codes}
use cs_server.Events.Identity.{TextTables, EventIdentity, compute_event_identity, points_eq}
use cs_server.Events.Protection.{protectable_event_fields}
use cs_server.Events.Posts.{event_id_of}
use cs_server.Events.Merge.{later, id_lt, points_lt, choose_canonical, merge_event_fields}

-- One announcing post, the event that it is attached to, when it was seen, and its other columns.
pub record Source : Type 0 where
  pub id : String
  pub event : String
  pub first_seen_at : Value
  pub last_seen_at : Value
  pub columns : Row

-- The rows of events hold the event's own columns. The candidates are given by their events alone.
pub record Store : Type 0 where
  pub events : List Row
  pub sources : List Source
  pub candidates : List String

unfoldable pub find_event : String → List Row → Option Row
find_event id [] = none
find_event id (r ∷ rs) =
    let rest = find_event id rs in if str_eq (event_id_of r) id then some r else rest

-- `ORDER BY last_seen_at DESC, id DESC`: the first of two sources comes first.
abbrev newer : Source → Source → Bool
newer a b =
    later a.last_seen_at b.last_seen_at
    || not (later b.last_seen_at a.last_seen_at) && points_lt (codes b.id) (codes a.id)

abbrev newest_of : Source → Option Source → Option Source
newest_of x none = some x
newest_of x (some y) = some (if newer x y then x else y)

-- The source of the event that was seen last.
unfoldable pub primary : String → List Source → Option Source
unfolding later points_lt
primary id [] = none
primary id (x ∷ xs) =
    let rest = primary id xs in if str_eq x.event id then newest_of x rest else rest

abbrev earlier_of : Value → Value → Value
earlier_of a null = a
earlier_of a b = if later a b then b else a

unfoldable pub first_seen : String → List Source → Value
unfolding later
first_seen id [] = null
first_seen id (x ∷ xs) =
    let rest = first_seen id xs in
    if str_eq x.event id then earlier_of x.first_seen_at rest else rest

-- The columns that the view of an event takes from its primary source.
abbrev primary_columns : List String
primary_columns =
    "source_kind" ∷ "source_handle" ∷ "source_shortcode" ∷ "source_permalink" ∷ "source_event_key"
    ∷ "source_event_index" ∷ "cover_photo_key" ∷ "raw_extraction" ∷ []

abbrev column_of : Option Source → String → Value
column_of none k = null
column_of (some x) k = get x.columns k

abbrev seen_of : Option Source → Value
seen_of none = null
seen_of (some x) = x.last_seen_at

-- `_EVENT_SELECT`, but for the venue's name and the time of the update: the event's own columns, those
-- of its primary source, and when its sources were first and last seen.
abbrev pub view : List Source → Row → Row
view sources r k =
    let source = primary (event_id_of r) sources in
    if elem k primary_columns
    then some (column_of source k)
    else (if str_eq "first_seen_at" k
        then some (first_seen (event_id_of r) sources)
        else (if str_eq "last_seen_at" k then some (seen_of source) else r k))

abbrev pub viewed : List Source → List Row → List Row
viewed sources [] = []
viewed sources (r ∷ rs) = view sources r ∷ viewed sources rs

unfoldable pub get_event : String → Exec Store (Option Row)
unfolding find_event primary first_seen
get_event id s = (ok (find_event id (viewed s.sources s.events)), s)

-- `ORDER BY starts_at NULLS LAST, event_id`, of starts in one zone.
abbrev starts_before : Value → Value → Bool
starts_before (instant d m) null = true
starts_before a b = later b a

abbrev pub listed_before : Row → Row → Bool
listed_before a b =
    starts_before (get a "starts_at") (get b "starts_at")
    || not (starts_before (get b "starts_at") (get a "starts_at")) && id_lt a b

unfoldable pub insert_row : Row → List Row → List Row
unfolding later
insert_row r [] = r ∷ []
insert_row r (x ∷ xs) =
    let deeper = insert_row r xs in if listed_before r x then r ∷ x ∷ xs else x ∷ deeper

unfoldable pub list_events : Value → List Row → List Row
unfolding insert_row
list_events venue [] = []
list_events venue (r ∷ rs) =
    let rest = list_events venue rs in
    if value_eq (get r "venue_id") venue then insert_row r rest else rest

-- The id of a row is not among the columns that an update sets.
abbrev updated : Row → Row → Row
updated fields r = put "event_id" (get r "event_id") (merge r fields)

abbrev pub update_rows : String → Row → List Row → List Row
update_rows id fields [] = []
update_rows id fields (r ∷ rs) =
    (if str_eq (event_id_of r) id then updated fields r else r) ∷ update_rows id fields rs

unfoldable pub update_event : String → Row → Exec Store (Unit {0})
update_event id fields s = (ok tt, record s { events = update_rows id fields s.events })

abbrev pub reattach : String → String → List Source → List Source
reattach from to [] = []
reattach from to (x ∷ xs) =
    record x { event = if str_eq x.event from then to else x.event } ∷ reattach from to xs

unfoldable pub reattach_event_sources : String → String → Exec Store (Unit {0})
reattach_event_sources from to s = (ok tt, record s { sources = reattach from to s.sources })

abbrev pub without : String → List String → List String
without id [] = []
without id (x ∷ xs) = let rest = without id xs in if str_eq x id then rest else x ∷ rest

-- `replace_event_venue_link_candidates(event_id, [])`
unfoldable pub clear_candidates : String → Exec Store (Unit {0})
clear_candidates id s = (ok tt, record s { candidates = without id s.candidates })

abbrev pub refers : String → List Source → Bool
refers id [] = false
refers id (x ∷ xs) = str_eq x.event id || refers id xs

abbrev pub drop_rows : String → List Row → List Row
drop_rows id [] = []
drop_rows id (r ∷ rs) =
    let rest = drop_rows id rs in if str_eq (event_id_of r) id then rest else r ∷ rest

unfoldable pub delete_event : String → Exec Store (Unit {0})
delete_event id s =
    if refers id s.sources || elem id s.candidates
    then (raised integrity_error, s)
    else (ok tt, record s { events = drop_rows id s.events })

-- The columns that a merge can change.
abbrev merged_columns : List String
merged_columns = "lineup" ∷ "attractions" ∷ "review_reason" ∷ protectable_event_fields

abbrev any_set : Row → List String → Bool
any_set fields [] = false
any_set fields (k ∷ ks) = elim (fields k) [ none ↦ any_set fields ks | some v ↦ true ]

module _ (u : TextTables) where
  abbrev identity_eq : Option (EventIdentity u) → Option (EventIdentity u) → Bool
  identity_eq (some (v, d, t)) (some (w, e, x)) = str_eq v w && d == e && points_eq t x
  identity_eq _ _ = false

  abbrev pub identity_of : Row → Option (EventIdentity u)
  identity_of r = compute_event_identity u (get r "venue_id") (get r "starts_at") (get r "title")

  abbrev pub is_sibling : Row → List String → Row → Bool
  is_sibling event absorbed x =
      not (str_eq (event_id_of x) (event_id_of event))
      && not (elem (event_id_of x) absorbed)
      && identity_eq (identity_of x) (identity_of event)

  -- The rows with the event's identity that no merge of this call has absorbed.
  unfoldable pub siblings_of : Row → List String → List Row → List Row
  siblings_of event absorbed [] = []
  siblings_of event absorbed (x ∷ xs) =
      let rest = siblings_of event absorbed xs in
      if is_sibling event absorbed x then x ∷ rest else rest

  -- The update of the canonical row.
  unfoldable pub update_of : Row → Row → Row
  unfolding merge_event_fields
  update_of canonical other =
      let (changed, reason) = merge_event_fields u canonical other in
      if value_eq reason (get canonical "review_reason")
      then changed
      else put "review_reason" reason changed

  unfoldable pub needs_update : Row → Row → Bool
  unfolding update_of
  needs_update canonical other = any_set (update_of canonical other) merged_columns

  unfoldable pub fold_fields_into : String → Row → Row → Exec Store (Option Row)
  unfolding update_event get_event
  fold_fields_into id canonical other =
      if needs_update canonical other
      then (update_event id (update_of canonical other) >>= λ _. get_event id)
      else pure (some canonical)

  -- One duplicate of the group.
  unfoldable pub absorb_one : String → Option Row → Row → Exec Store (Option Row)
  unfolding fold_fields_into reattach_event_sources clear_candidates delete_event
  absorb_one id none other = λ s. (raised attribute_error, s)
  absorb_one id (some canonical) other = do
    next ← fold_fields_into id canonical other
    _ ← reattach_event_sources (event_id_of other) id
    _ ← clear_candidates (event_id_of other)
    _ ← delete_event (event_id_of other)
    pure next

  -- The loop over the group, and the ids that it absorbs.
  unfoldable pub absorb_all :
      String → Option Row → List Row → List String → Exec Store (List String)
  unfolding absorb_one
  absorb_all id canonical [] absorbed = pure absorbed
  absorb_all id canonical (x ∷ xs) absorbed =
      if str_eq (event_id_of x) id
      then absorb_all id canonical xs absorbed
      else (absorb_one id canonical x >>= λ next. absorb_all id next xs (event_id_of x ∷ absorbed))

  -- A group of two protected rows is left alone.
  abbrev pub merge_group : Row → List Row → List String → Exec Store (List String)
  merge_group event siblings absorbed = elim (choose_canonical event siblings) [
    | none ↦ pure absorbed
    | some c ↦ absorb_all (event_id_of c) (some c) (event ∷ siblings) absorbed >>= λ more.
        pure (event_id_of c ∷ more)
  ]

  abbrev pub merge_siblings : Row → List Row → List String → Exec Store (List String)
  merge_siblings event [] absorbed = pure absorbed
  merge_siblings event (x ∷ xs) absorbed = merge_group event (x ∷ xs) absorbed

  abbrev pub has_identity : Option (EventIdentity u) → Bool
  has_identity none = false
  has_identity (some i) = true

  abbrev pub merge_found : Option Row → List String → Exec Store (List String)
  merge_found none absorbed = pure absorbed
  merge_found (some event) absorbed = λ s.
      let siblings =
        siblings_of event absorbed
          (list_events (get event "venue_id") (viewed s.sources s.events)) in
      (if has_identity (identity_of event)
          then merge_siblings event siblings absorbed
          else pure absorbed)
        s

  unfoldable pub merge_one : String → List String → Exec Store (List String)
  unfolding get_event list_events siblings_of choose_canonical absorb_all
  merge_one id absorbed = get_event id >>= λ o. merge_found o absorbed

  unfoldable pub merge_touched : List String → List String → Exec Store (List String)
  unfolding merge_one
  merge_touched [] absorbed = pure absorbed
  merge_touched (id ∷ ids) absorbed =
      if elem id absorbed
      then merge_touched ids absorbed
      else (merge_one id absorbed >>= merge_touched ids)

  unfoldable pub merge_touched_events : List String → Exec Store (Unit {0})
  unfolding merge_touched
  merge_touched_events ids = merge_touched ids [] >>= λ _. pure tt
