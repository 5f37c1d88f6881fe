-- ===== src/Events/Protection/Confirmed.antt =====
-- What a re-extraction of the same post may change in a confirmed row.
use cs_server.Prelude.{
  Bool-cases, ◌∙◌, String, ◌≡◌, ◌⊎◌, inl, inr, sym, Bool, true, false, ◌||◌, none, some, List,
  arith, str_eq, elem, refl, ap, eq_iff, if◌then◌else◌,
}
use cs_server.Events.Row.{
  Row, Value, texts, acts, get, is_null, texts_of, acts_of, texts_eq, acts_eq,
}
use cs_server.Events.Identity.{TextTables}
use cs_server.Events.Unions.{union_lineup, union_attractions}
use cs_server.Events.Protection.{
  protectable_event_fields, event_field_is_absent, apply_operator_field_protection, values_equal,
  confirmed_update_fields, put_lineup, put_attractions,
}
use cs_server.Events.Protection.Table.{apply_operator_field_protection_table}

abbrev pub list_columns : String → Bool
list_columns g = str_eq "lineup" g || str_eq "attractions" g

abbrev pub edited_by_operator : Row → String → Bool
edited_by_operator row g = elem g (texts_of (get row "operator_edited_fields"))

pub put_lists_other :
    (u : TextTables) (existing new changed : Row) (g : String)
    → list_columns g ≡ false
    → put_attractions u existing new (put_lineup existing new changed) g ≡ changed g
put_lists_other u existing new changed g h = ground arith

-- What the table writes for one field when the fresh answer always wins.
fresh_wins :
    (existing prepared : Row) (fields : List String) (g : String)
    → let d =
        (apply_operator_field_protection existing prepared values_equal (λ f old new. new) fields).0
          g in
      (d ≡ none)
      ⊎ ((d ≡ some (get prepared g))
          × (elem g fields ≡ true)
          × (edited_by_operator existing g ≡ false)
          × (event_field_is_absent g (get prepared g) prepared ≡ false))
fresh_wins existing prepared fields g = ground (
  arith,
  (apply_operator_field_protection_table existing prepared values_equal (λ f old new. new) fields).0
      g,
)

pub not_protectable :
    (g : String) → list_columns g ≡ true → elem g protectable_event_fields ≡ true → ⊥
not_protectable g l m = elim (Bool-cases (str_eq "lineup" g)) [
  | inl e ↦ absurd (cc (m, ap (λ k. elem k protectable_event_fields) ((eq_iff "lineup" g).0 e)))
  | inr e ↦
      let same : str_eq "attractions" g ≡ true = ground arith in
      absurd (cc (m, ap (λ k. elem k protectable_event_fields) ((eq_iff "attractions" g).0 same)))
]

-- The union of what is stored with what the new extraction has, for a list column.
abbrev pub united : TextTables → Row → Row → String → Value
united u existing prepared g =
    if str_eq "lineup" g
    then texts (union_lineup (texts_of (get existing "lineup")) (texts_of (get prepared "lineup")))
    else acts (
        union_attractions u (acts_of (get existing "attractions"))
          (acts_of (get prepared "attractions")))

put_lineup-cases :
    (existing new changed : Row) (g : String)
    → str_eq "lineup" g ≡ true
    → changed g ≡ none
    → let old = texts_of (get existing "lineup") in
      (put_lineup existing new changed g ≡ none)
      ⊎ (put_lineup existing new changed g
          ≡ some (texts (union_lineup old (texts_of (get new "lineup")))))
put_lineup-cases existing new changed g e h =
    let old = texts_of (get existing "lineup") in
    elim (Bool-cases (texts_eq (union_lineup old (texts_of (get new "lineup"))) old)) [
      | inl kept ↦ inl (rw kept h)
      | inr grown ↦ inr (rw (grown, e) refl)
    ]

put_attractions-cases :
    (u : TextTables) (existing new changed : Row) (g : String)
    → str_eq "attractions" g ≡ true
    → changed g ≡ none
    → let old = acts_of (get existing "attractions") in
      (put_attractions u existing new changed g ≡ none)
      ⊎ (put_attractions u existing new changed g
          ≡ some (acts (union_attractions u old (acts_of (get new "attractions")))))
put_attractions-cases u existing new changed g e h =
    let old = acts_of (get existing "attractions") in
    elim (Bool-cases (acts_eq (union_attractions u old (acts_of (get new "attractions"))) old)) [
      | inl kept ↦ inl (rw kept h)
      | inr grown ↦ inr (rw (grown, e) refl)
    ]

-- A list column is written with the union, or not at all.
pub put_lists-united :
    (u : TextTables) (existing new changed : Row) (g : String)
    → list_columns g ≡ true
    → changed g ≡ none
    → let row = put_attractions u existing new (put_lineup existing new changed) in
      (row g ≡ none) ⊎ (row g ≡ some (united u existing new g))
put_lists-united u existing new changed g l h = elim (Bool-cases (str_eq "lineup" g)) [
  | inl e ↦
      let other : str_eq "attractions" g ≡ false =
        ap (str_eq "attractions") (sym ((eq_iff "lineup" g).0 e)) in
      let first : put_attractions u existing new (put_lineup existing new changed) g
          ≡ put_lineup existing new changed g =
        ground arith in
      elim (put_lineup-cases existing new changed g e h) [
        | inl k ↦ inl (first ∙ k)
        | inr k ↦ inr (rw e (first ∙ k))
      ]
  | inr e ↦
      let second : put_lineup existing new changed g ≡ none = ground arith in
      elim (put_attractions-cases u existing new (put_lineup existing new changed) g (ground arith)
        second) [ inl k ↦ inl k | inr k ↦ inr (rw e k) ]
]

-- In a confirmed row a re-extraction writes nothing at all where no record of edits exists, the
-- line-up and the attractions included. Elsewhere it writes to these two only the union of what is
-- stored and what is new; and besides them only protectable fields that no operator edited and for
-- which the new extraction states a value, and then that value.
pub confirmed_update_fields_protects :
    (u : TextTables) (existing prepared : Row) (g : String)
    → let changed = (confirmed_update_fields u existing prepared).0 in
      (changed g ≡ none)
      ⊎ ((is_null (get existing "operator_edited_fields") ≡ false)
          × (((list_columns g ≡ true) × (changed g ≡ some (united u existing prepared g)))
              ⊎ ((list_columns g ≡ false)
                  × (changed g ≡ some (get prepared g))
                  × (elem g protectable_event_fields ≡ true)
                  × (edited_by_operator existing g ≡ false)
                  × (event_field_is_absent g (get prepared g) prepared ≡ false))))
unfolding confirmed_update_fields
confirmed_update_fields_protects u existing prepared g =
    elim (Bool-cases (is_null (get existing "operator_edited_fields"))) [
      | inl legacy ↦ inl (rw legacy refl)
      | inr known ↦
          let d =
            apply_operator_field_protection existing prepared values_equal (λ f old new. new)
              protectable_event_fields in
          elim (Bool-cases (list_columns g)) [
            | inl is_list ↦
                let untouched : d.0 g ≡ none =
                  elim (fresh_wins existing prepared protectable_event_fields g) [
                    | inl none_written ↦ none_written
                    | inr w ↦ absurd (not_protectable g is_list w.1)
                  ] in
                elim (put_lists-united u existing prepared d.0 g is_list untouched) [
                  | inl e ↦ inl (rw known e)
                  | inr e ↦ inr (known, inl (is_list, rw known e))
                ]
            | inr content ↦
                let lists = put_lists_other u existing prepared d.0 g content in
                elim (fresh_wins existing prepared protectable_event_fields g) [
                  | inl none_written ↦ inl (rw known (lists ∙ none_written))
                  | inr w ↦ inr (known, inr (content, rw known (lists ∙ w.0), w.1, w.2, w.3))
                ]
          ]
    ]
