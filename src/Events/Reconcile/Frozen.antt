-- ===== src/Events/Reconcile/Frozen.antt =====
-- What the update of a confirmed row leaves alone.
use cs_server.Prelude.{
  String, ◌≡◌, refl, inl, inr, Bool, true, false, not, ◌&&◌, ◌||◌, none, List, [], ◌∷◌, arith, elem,
  eq_iff, str_eq, Bool-cases,
}
use cs_server.Events.Row.{Row, get, is_null}
use cs_server.Events.Identity.{TextTables}
use cs_server.Events.Protection.{protectable_event_fields, confirmed_update_fields}
use cs_server.Events.Protection.Confirmed.{
  list_columns, edited_by_operator, confirmed_update_fields_protects,
}
use cs_server.Events.Posts.{Caller}
use cs_server.Events.Reconcile.{confirmed_write}

-- No field of the list passes the test.
abbrev none_of : (String → Bool) → List String → Bool
none_of test [] = true
none_of test (f ∷ fs) = not (test f) && none_of test fs

pub none_of-elem :
    (test : String → Bool) (fields : List String) (g : String)
    → none_of test fields ≡ true
    → elem g fields ≡ true
    → test g ≡ false
none_of-elem test [] g h m = cc
none_of-elem test (f ∷ fs) g h m = elim (Bool-cases (str_eq g f)) [
  | inl same ↦ rw ((eq_iff g f).0 same) (ground arith)
  | inr other ↦ none_of-elem test fs g (ground arith) (ground arith)
]

pub true_and_false : (b : Bool) → b ≡ true → b ≡ false → ⊥
true_and_false b h k = cc

frozen_list : (a l b : Bool) → a ≡ false → l ≡ true → (a || (not l && b)) ≡ true → ⊥
frozen_list a l b h k z = ground arith

frozen_edit : (a l b : Bool) → a ≡ false → b ≡ false → (a || (not l && b)) ≡ true → ⊥
frozen_edit a l b h k z = ground arith

-- The columns that the update of a confirmed row writes besides content.
abbrev pub bookkeeping : String → Bool
bookkeeping g =
    str_eq "raw_extraction" g
    || str_eq "last_seen_at" g
    || str_eq "source_event_key" g
    || str_eq "source_handle" g
    || str_eq "source_shortcode" g
    || str_eq "review_reason" g

-- The columns of content: the protectable fields, the line-up and the attractions.
abbrev pub is_content : String → Bool
is_content g = elem g ("lineup" ∷ "attractions" ∷ protectable_event_fields)

-- A field that the operator edited, the line-up and the attractions excepted, or any where no record
-- of edits exists.
abbrev pub is_frozen : Row → String → Bool
is_frozen row g =
    is_null (get row "operator_edited_fields") || not (list_columns g) && edited_by_operator row g

-- The update leaves status and attribution alone, and the content that is frozen.
pub record Keeps (row fields : Row) : Type 0 where
  pub status : fields "status" ≡ none
  pub venue : fields "venue_id" ≡ none
  pub resolution : fields "location_resolution" ≡ none
  pub confidence : fields "location_confidence" ≡ none
  pub linked_by : fields "linked_by" ≡ none
  pub linked_at : fields "linked_at" ≡ none
  pub edits : (g : String) → is_content g ≡ true → is_frozen row g ≡ true → fields g ≡ none

pub content-bookkeeping : (g : String) → is_content g ≡ true → bookkeeping g ≡ false
content-bookkeeping g m =
    none_of-elem bookkeeping ("lineup" ∷ "attractions" ∷ protectable_event_fields) g refl m

module _ {Hook : Type 0} (u : TextTables) (c : Caller Hook) where
  confirmed_write-other :
      (e p : Row) (key g : String)
      → bookkeeping g ≡ false
      → confirmed_write u c e p key g ≡ (confirmed_update_fields u e p).0 g
  unfolding confirmed_write
  confirmed_write-other e p key g h = ground arith

  -- A column outside the content is not written.
  not_content :
      (e p : Row) (key g : String)
      → bookkeeping g ≡ false
      → list_columns g ≡ false
      → elem g protectable_event_fields ≡ false
      → confirmed_write u c e p key g ≡ none
  not_content e p key g b l m =
      rw (confirmed_write-other e p key g b) (elim (confirmed_update_fields_protects u e p g) [
        | inl h ↦ h
        | inr (known, inl w) ↦ absurd (true_and_false _ w.0 l)
        | inr (known, inr w) ↦ absurd (true_and_false _ w.2 m)
      ])

  frozen_not_written :
      (e p : Row) (key g : String)
      → is_content g ≡ true
      → is_frozen e g ≡ true
      → confirmed_write u c e p key g ≡ none
  frozen_not_written e p key g m z =
      rw (confirmed_write-other e p key g (content-bookkeeping g m))
        (elim (confirmed_update_fields_protects u e p g) [
          | inl h ↦ h
          | inr (known, inl w) ↦ absurd (frozen_list _ _ _ known w.0 z)
          | inr (known, inr w) ↦ absurd (frozen_edit _ _ _ known w.3 z)
        ])

  pub confirmed_write-Keeps : (e p : Row) (key : String) → Keeps e (confirmed_write u c e p key)
  confirmed_write-Keeps e p key = record {
    status = not_content e p key "status" refl refl refl;
    venue = not_content e p key "venue_id" refl refl refl;
    resolution = not_content e p key "location_resolution" refl refl refl;
    confidence = not_content e p key "location_confidence" refl refl refl;
    linked_by = not_content e p key "linked_by" refl refl refl;
    linked_at = not_content e p key "linked_at" refl refl refl;
    edits = frozen_not_written e p key;
  }
