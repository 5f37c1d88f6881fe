-- ===== src/Events/Reconcile.antt =====
-- `reconcile_post_events` of app/services/event_reconciliation.py. The function reads the rows of the
-- post once and then only writes, so it is a function from those rows and the fresh events to the
-- writes in their order. The attribution callback, the supply of ids and the post are parameters.
pub mod Count
pub mod Counted
pub mod Keys
pub mod Writes
pub mod Frozen
pub mod Confirmed
pub mod Manual
pub mod Accepted
use cs_server.Prelude.{
  ℕ, zero, suc, ◌+◌, String, Bool, true, false, not, ◌&&◌, ◌||◌, Option, none, some, List, [], ◌∷◌,
  ◌++◌, ◌==◌, str_eq, elem, if◌then◌else◌,
}
use cs_server.Events.Row.{Row, Value, null, text, num, empty, put, merge, get, is_null}
use cs_server.Events.Identity.{
  TextTables, normalize_title, points_eq, day_of, compute_source_event_key,
}
use cs_server.Events.Protection.{confirmed_update_fields, is_clean_extraction}
use cs_server.Events.Posts.{
  Caller, Matching, Pending, Post, Run, Write, begin, event_id_of, find_by_key, hook_write, insert,
  is_confirmed, is_manual, is_protected, is_text, key_of, or_first, orphaned_protected,
  plausibly_same_event, run, same_day, set_default, start, text_of, update, value_or,
  with_link_columns, xor,
}

module _ {Hook : Type 0} (u : TextTables) (c : Caller Hook) where
  open c use {post, now, min_confidence, attribute, fresh_id}

  -- The update of a confirmed row.
  unfoldable pub confirmed_write : Row → Row → String → Row
  confirmed_write existing prepared key =
      let (changed, diverges) = confirmed_update_fields u existing prepared in
      let update_fields = put "source_shortcode" (text post.source_shortcode) (
        put "source_handle" (text post.source_handle) (
          put "source_event_key" (text key) (
            put "last_seen_at" now
              (put "raw_extraction" (get prepared "raw_extraction") changed)))) in
      if diverges
      then put "review_reason" (text "model_diverges_from_confirmed_record") update_fields
      else update_fields

  unfoldable pub base_fields : ℕ → String → Row
  base_fields index key = put "last_seen_at" now (
      put "status" (text "pending_review") (
        put "source_event_index" (num index) (
          put "source_event_key" (text key) (
            put "source_permalink" post.source_permalink (
              put "source_shortcode" (text post.source_shortcode) (
                put "source_handle" (text post.source_handle)
                  (put "source_kind" (text post.source_kind) empty)))))))

  -- The status that replaces `pending_review`; the venue is the stored one where this run has none.
  abbrev pub settle : Value → Row → Row
  settle stored_venue fields =
      let venue = value_or stored_venue (fields "venue_id") in
      put "status"
        (if is_clean_extraction (get fields "review_reason") (get fields "starts_at") venue
            (get fields "confidence") min_confidence
          then text "accepted"
          else text "pending_review")
        fields

  -- A fresh event that gets a row of its own.
  unfoldable pub new_fields : Row → ℕ → String → String → Row
  new_fields prepared index key event_id =
      put "first_seen_at" now
        (put "event_id" (text event_id) (merge (base_fields index key) prepared))

  unfoldable pub new_writes : Row → ℕ → String → String → List (Write Hook)
  new_writes prepared index key event_id =
      let fields = new_fields prepared index key event_id in
      let (attribution, hook) = attribute fields event_id in
      insert (with_link_columns (settle null (merge fields attribution))) ∷ hook_write hook

  unfoldable pub persist_new : Row → ℕ → String → Run Hook → Run Hook
  persist_new prepared index key r = record r {
    writes = r.writes ++ new_writes prepared index key (fresh_id r.minted);
    persisted = r.persisted + 1;
    touched = r.touched ++ fresh_id r.minted ∷ [];
    minted = r.minted + 1;
  }

  -- The update of a row that is not confirmed; a manual link is never handed to the attribution.
  unfoldable pub refreshed_fields : Row → Row → ℕ → String → Row × Option Hook
  refreshed_fields existing prepared index key =
      let fields = merge (base_fields index key) prepared in
      let (attribution, hook) = attribute fields (event_id_of existing) in
      if is_manual existing
      then (settle (get existing "venue_id") fields, none)
      else (settle (get existing "venue_id") (merge fields attribution), hook)

  unfoldable pub existing_writes : Row → Row → ℕ → String → List (Write Hook)
  existing_writes existing prepared index key =
      let (fields, hook) = refreshed_fields existing prepared index key in
      if is_confirmed existing
      then update (event_id_of existing) (confirmed_write existing prepared key) ∷ []
      else update (event_id_of existing) fields ∷ hook_write hook

  unfoldable pub persist_existing : Row → Row → ℕ → String → Run Hook → Run Hook
  persist_existing existing prepared index key r = record r {
    writes = r.writes ++ existing_writes existing prepared index key;
    handled = r.handled ++ event_id_of existing ∷ [];
    persisted = r.persisted + 1;
    touched = r.touched ++ event_id_of existing ∷ [];
  }

  -- One fresh event of the first loop: its row is persisted, or it waits.
  unfoldable pub match_one : Option Row → Row → ℕ → String → Matching Hook → Matching Hook
  match_one none prepared index key m = record m {
    pending = m.pending ++ (index, prepared, key) ∷ [];
  }
  match_one (some existing) prepared index key m = record m {
    current = persist_existing existing prepared index key m.current;
  }

  -- A key that was seen in this run is skipped.
  unfoldable pub match_step : List Row → ℕ → Row → Matching Hook → Matching Hook
  unfolding match_one
  match_step rows index prepared m =
      let key = key_of u prepared in
      if elem key m.seen
      then m
      else match_one (find_by_key key rows) prepared index key (record m { seen = key ∷ m.seen })

  -- The first loop, over the fresh events from the place `index` on.
  unfoldable pub match_all : List Row → ℕ → List Row → Matching Hook → Matching Hook
  match_all rows index [] m = m
  match_all rows index (p ∷ ps) m = match_all rows (index + 1) ps (match_step rows index p m)

  -- The fallback: exactly one protected row without an event, and one event without a row.
  abbrev pub pair_up : List Row → List Pending → Run Hook → Run Hook × List Pending
  pair_up (candidate ∷ []) ((index, prepared, key) ∷ []) r =
      if plausibly_same_event u candidate prepared
      then (persist_existing candidate prepared index key r, [])
      else (r, (index, prepared, key) ∷ [])
  pair_up _ pending r = (r, pending)

  unfoldable pub persist_pending : List Pending → Run Hook → Run Hook
  persist_pending [] r = r
  persist_pending ((index, prepared, key) ∷ ps) r =
      persist_pending ps (persist_new prepared index key r)

  -- What a protected row is told when the extraction no longer yields its event.
  abbrev pub absent_mark : Row → Row
  absent_mark row = put "source_shortcode" (get row "source_shortcode") (
      put "source_handle" (get row "source_handle") (
        put "last_seen_at" now
          (put "review_reason" (text "confirmed_event_absent_from_latest_extraction") empty)))

  -- The last loop, over the rows that nothing handled.
  abbrev pub retire : Row → List (Write Hook)
  retire row =
      if is_null (get row "source_event_key")
      then []
      else (if is_protected row
          then update (event_id_of row) (absent_mark row) ∷ []
          else update (event_id_of row) (put "status" (text "superseded") empty) ∷ [])

  unfoldable pub retire_all : List String → List Row → List (Write Hook)
  retire_all handled [] = []
  retire_all handled (r ∷ rs) =
      (if elem (event_id_of r) handled then [] else retire r) ++ retire_all handled rs

  abbrev pub finish : List Row → Run Hook → Run Hook
  finish rows r = record r { writes = r.writes ++ retire_all r.handled rows }

  abbrev pub paired : List Row → Matching Hook → Run Hook × List Pending
  paired rows m = pair_up (orphaned_protected m.current.handled rows) m.pending m.current

  unfoldable pub reconcile_post_events : List Row → List Row → Run Hook
  reconcile_post_events rows prepared =
      let q = paired rows (match_all rows 1 prepared begin) in finish rows (persist_pending q.1 q.0)
