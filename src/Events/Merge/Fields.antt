-- ===== src/Events/Merge/Fields.antt =====
-- What a merge may change in the surviving event.
use cs_server.Prelude.{
  ℕ, String, ◌≡◌, refl, sym, ◌∙◌, elem, subst, ◌⊎◌, inl, inr, Bool, true, false, not, ◌&&◌, ◌||◌,
  Option, none, some, List, [], ◌∷◌, arith, eq_iff, str_eq, if◌then◌else◌, Bool-cases,
}
use cs_server.Events.Row.{Row, Value, get, empty, is_null}
use cs_server.Events.Row.Equality.{value_eq_refl}
use cs_server.Events.Identity.{TextTables, normalize_title, points_eq}
use cs_server.Events.Protection.{
  protectable_event_fields, event_field_is_absent, apply_operator_field_protection, put_lineup,
  put_attractions,
}
use cs_server.Events.Protection.Table.{apply_operator_field_protection_table}
use cs_server.Events.Protection.Confirmed.{
  list_columns, edited_by_operator, put_lists_other, put_lists-united, united, not_protectable,
}
use cs_server.Events.Posts.{is_confirmed}
use cs_server.Events.Reconcile.Frozen.{is_frozen}
use cs_server.Events.Merge.{
  later, values_agree, fold_field, fold_fields, resolve_by_recency, merge_event_fields,
}

-- A value that one of the two events states for the field.
abbrev Stated : Row → Row → String → Value → Type 0
Stated canonical duplicate g v =
    ((v ≡ get duplicate g) × (event_field_is_absent g (get duplicate g) duplicate ≡ false))
    ⊎ ((v ≡ get canonical g) × (event_field_is_absent g (get canonical g) canonical ≡ false))

-- The update holds no value for the field, or one that is stated for it.
abbrev pub OnlyStated : Row → Row → String → Option Value → Type 0
OnlyStated canonical duplicate g none = Unit
OnlyStated canonical duplicate g (some v) = Stated canonical duplicate g v

-- The update holds no value for the column; or one that is stated for it; or, for the line-up and the
-- attractions, the union of what both events hold.
abbrev pub OnlyMerged : TextTables → Row → Row → String → Option Value → Type 0
OnlyMerged u canonical duplicate g none = Unit
OnlyMerged u canonical duplicate g (some v) =
    ((list_columns g ≡ false) × Stated canonical duplicate g v)
    ⊎ ((list_columns g ≡ true) × (v ≡ united u canonical duplicate g))

stated-OnlyMerged :
    (u : TextTables) (canonical duplicate : Row) (g : String) (o : Option Value)
    → list_columns g ≡ false
    → OnlyStated canonical duplicate g o
    → OnlyMerged u canonical duplicate g o
stated-OnlyMerged u canonical duplicate g none l h = tt
stated-OnlyMerged u canonical duplicate g (some v) l h = inl (l, h)

united-OnlyMerged :
    (u : TextTables) (canonical duplicate changed : Row) (g : String)
    → list_columns g ≡ true
    → changed g ≡ none
    → OnlyMerged u canonical duplicate g
        (put_attractions u canonical duplicate (put_lineup canonical duplicate changed) g)
united-OnlyMerged u canonical duplicate changed g l h =
    elim (put_lists-united u canonical duplicate changed g l h) [
      | inl e ↦ rw e tt
      | inr e ↦ rw e (inr (l, refl))
    ]

points_eq_refl : (a : List ℕ) → points_eq a a ≡ true
points_eq_refl [] = refl
points_eq_refl (x ∷ xs) = ground (arith, points_eq_refl xs)

module _ (u : TextTables) (canonical duplicate : Row) where
  abbrev recent : String → Value
  recent f =
      if later (get duplicate "last_seen_at") (get canonical "last_seen_at")
      then get duplicate f
      else get canonical f

  abbrev c_empty : String → Bool
  c_empty f = event_field_is_absent f (get canonical f) canonical

  abbrev d_empty : String → Bool
  d_empty f = event_field_is_absent f (get duplicate f) duplicate

  -- What one round leaves for its own field.
  abbrev folded : String → Option Value → Option Value
  folded f old =
      if c_empty f && not (d_empty f)
      then some (get duplicate f)
      else (if d_empty f || values_agree u f (get canonical f) (get duplicate f)
          then old
          else some (recent f))

  fold_field-at :
      (f g : String) (acc : Row × Bool)
      → (fold_field u canonical duplicate f acc).0 g
        ≡ (if str_eq f g then folded f (acc.0 g) else acc.0 g)
  unfolding fold_field
  fold_field-at f g acc = ground arith

  recent-Stated :
      (f : String) → c_empty f ≡ false → d_empty f ≡ false → Stated canonical duplicate f (recent f)
  recent-Stated f hc hd =
      elim (Bool-cases (later (get duplicate "last_seen_at") (get canonical "last_seen_at"))) [
        | inl new ↦ inl (rw new, hd)
        | inr old ↦ inr (rw old, hc)
      ]

  folded-OnlyStated :
      (f : String) (old : Option Value)
      → OnlyStated canonical duplicate f old
      → OnlyStated canonical duplicate f (folded f old)
  folded-OnlyStated f old h = elim (Bool-cases (d_empty f)) [
    | inl de ↦ elim (Bool-cases (c_empty f)) [ inl ce ↦ rw (ce, de) h | inr ce ↦ rw (ce, de) h ]
    | inr de ↦ elim (Bool-cases (c_empty f)) [
      | inl ce ↦ rw (ce, de) (inl (refl, de))
      | inr ce ↦ elim (Bool-cases (values_agree u f (get canonical f) (get duplicate f))) [
        | inl same ↦ rw (ce, de, same) h
        | inr other ↦ rw (ce, de, other) (recent-Stated f ce de)
      ]
    ]
  ]

  fold_field-OnlyStated :
      (f g : String) (acc : Row × Bool)
      → OnlyStated canonical duplicate g (acc.0 g)
      → OnlyStated canonical duplicate g ((fold_field u canonical duplicate f acc).0 g)
  fold_field-OnlyStated f g acc h = rw (fold_field-at f g acc) (elim (Bool-cases (str_eq f g)) [
    | inl same ↦ rw same (
        subst (λ k. OnlyStated canonical duplicate g (folded k (acc.0 g)))
          (sym ((eq_iff f g).0 same)) (folded-OnlyStated g (acc.0 g) h))
    | inr other ↦ rw other h
  ])

  fold_fields-OnlyStated :
      (fs : List String) (g : String) (acc : Row × Bool)
      → OnlyStated canonical duplicate g (acc.0 g)
      → OnlyStated canonical duplicate g ((fold_fields u canonical duplicate fs acc).0 g)
  unfolding fold_fields
  fold_fields-OnlyStated [] g acc h = h
  fold_fields-OnlyStated (f ∷ fs) g acc h =
      fold_fields-OnlyStated fs g (fold_field u canonical duplicate f acc)
        (fold_field-OnlyStated f g acc h)

  -- A column that is none of the fields is left.
  fold_fields-outside :
      (fs : List String) (g : String) (acc : Row × Bool)
      → elem g fs ≡ false
      → (fold_fields u canonical duplicate fs acc).0 g ≡ acc.0 g
  unfolding fold_fields
  fold_fields-outside [] g acc h = refl
  fold_fields-outside (f ∷ fs) g acc h =
      let first : str_eq f g ≡ false = ground (arith, eq_iff f g, eq_iff g f) in
      fold_fields-outside fs g (fold_field u canonical duplicate f acc) (ground arith)
      ∙ (fold_field-at f g acc ∙ rw first refl)

  values_agree_refl : (f : String) (v : Value) → values_agree u f v v ≡ true
  unfolding values_agree
  values_agree_refl f v = elim (Bool-cases (str_eq f "title")) [
    | inl title ↦ rw title (points_eq_refl (normalize_title u v))
    | inr other ↦ rw other (value_eq_refl v)
  ]

  -- What the table writes for one field when the more recently seen source wins.
  recency_wins :
      (fields : List String) (g : String)
      → let d =
          (apply_operator_field_protection canonical duplicate
              (values_agree u)
              (resolve_by_recency u canonical duplicate)
              fields).0
            g in
        (d ≡ none)
        ⊎ ((d ≡ some (get duplicate g))
            × (edited_by_operator canonical g ≡ false)
            × (d_empty g ≡ false))
  recency_wins fields g = ground (
    arith,
    (apply_operator_field_protection_table canonical duplicate (values_agree u)
          (resolve_by_recency u canonical duplicate) fields).0
        g,
    values_agree_refl g (get canonical g),
  )

unfrozen : (l b : Bool) → b ≡ false → (false || (not l && b)) ≡ true → ⊥
unfrozen l b h k = ground arith

frozen_content : (l b : Bool) → l ≡ true → (false || (not l && b)) ≡ true → ⊥
frozen_content l b h k = ground arith

content_protects :
    (u : TextTables) (canonical duplicate : Row) (g : String)
    → list_columns g ≡ false
    → let changed = (merge_event_fields u canonical duplicate).0 in
      OnlyStated canonical duplicate g (changed g)
      × (is_confirmed canonical ≡ true → is_frozen canonical g ≡ true → changed g ≡ none)
unfolding merge_event_fields
content_protects u canonical duplicate g h = elim (Bool-cases (is_confirmed canonical)) [
  | inr open_row ↦
      let folded_row =
        (fold_fields u canonical duplicate protectable_event_fields (empty, false)).0 in
      rw open_row (
        rw (put_lists_other u canonical duplicate folded_row g h) (
            fold_fields-OnlyStated u canonical duplicate protectable_event_fields g (empty, false)
              tt),
        λ k. absurd (cc k),
      )
  | inl held ↦ elim (Bool-cases (is_null (get canonical "operator_edited_fields"))) [
    | inl legacy ↦ rw (held, legacy) (tt, λ k z. refl)
    | inr known ↦
        let table =
          (apply_operator_field_protection canonical duplicate (values_agree u)
            (resolve_by_recency u canonical duplicate) protectable_event_fields).0 in
        rw (held, known)
          (rw (put_lists_other u canonical duplicate table g h)
            (elim (recency_wins u canonical duplicate protectable_event_fields g) [
              | inl e ↦ rw e (tt, λ k z. refl)
              | inr w ↦ rw w.0 (inl (refl, w.2), λ k z. absurd (unfrozen _ _ w.1 z))
            ]))
  ]
]

-- No list column is among the fields of the table.
table_skips_lists :
    (u : TextTables) (canonical duplicate : Row) (g : String)
    → list_columns g ≡ true
    → (apply_operator_field_protection canonical duplicate
          (values_agree u)
          (resolve_by_recency u canonical duplicate)
          protectable_event_fields).0
        g
      ≡ none
table_skips_lists u canonical duplicate g l =
    let outside : elem g protectable_event_fields ≡ false =
      elim (Bool-cases (elem g protectable_event_fields)) [
        | inl e ↦ absurd (not_protectable g l e)
        | inr e ↦ e
      ] in
    ground (
      arith,
      (apply_operator_field_protection_table canonical duplicate (values_agree u)
            (resolve_by_recency u canonical duplicate) protectable_event_fields).0
          g,
      outside,
    )

lists_protects :
    (u : TextTables) (canonical duplicate : Row) (g : String)
    → list_columns g ≡ true
    → let changed = (merge_event_fields u canonical duplicate).0 in
      OnlyMerged u canonical duplicate g (changed g)
      × (is_confirmed canonical ≡ true → is_frozen canonical g ≡ true → changed g ≡ none)
unfolding merge_event_fields
lists_protects u canonical duplicate g l = elim (Bool-cases (is_confirmed canonical)) [
  | inr open_row ↦
      let outside : elem g protectable_event_fields ≡ false =
        elim (Bool-cases (elem g protectable_event_fields)) [
          | inl e ↦ absurd (not_protectable g l e)
          | inr e ↦ e
        ] in
      rw open_row (
        united-OnlyMerged u canonical duplicate _ g l (
            fold_fields-outside u canonical duplicate protectable_event_fields g (empty, false)
              outside),
        λ k. absurd (cc k),
      )
  | inl held ↦ elim (Bool-cases (is_null (get canonical "operator_edited_fields"))) [
    | inl legacy ↦ rw (held, legacy) (tt, λ k z. refl)
    | inr known ↦
        rw (held, known)
          (
            united-OnlyMerged u canonical duplicate _ g l
                (table_skips_lists u canonical duplicate g l),
            λ k z. absurd (frozen_content _ _ l z),
          )
  ]
]

-- Outside the two list columns a merge writes to a field only a value that one of the two events
-- states for it, so it never replaces a known value by an absent one; to these two it writes only the
-- union of what both hold. To a confirmed event it writes nothing in a field that an operator edited,
-- the line-up and the attractions excepted, and nothing at all, these two included, where no record
-- of edits exists.
pub merge_event_fields_protects :
    (u : TextTables) (canonical duplicate : Row) (g : String)
    → let changed = (merge_event_fields u canonical duplicate).0 in
      OnlyMerged u canonical duplicate g (changed g)
      × (is_confirmed canonical ≡ true → is_frozen canonical g ≡ true → changed g ≡ none)
unfolding merge_event_fields
merge_event_fields_protects u canonical duplicate g = elim (Bool-cases (list_columns g)) [
  | inl is_list ↦ lists_protects u canonical duplicate g is_list
  | inr content ↦
      let (h, k) = content_protects u canonical duplicate g content in
      (stated-OnlyMerged u canonical duplicate g _ content h, k)
]
