-- ===== src/Events/Protection/Table.antt =====
-- The table, field by field: what `apply_operator_field_protection` decides is one rule for each field,
-- whatever the order of the fields.
use cs_server.Prelude.{
  ap, String, ◌≡◌, refl, Bool, false, not, ◌&&◌, ◌||◌, Option, none, some, List, [], ◌∷◌, arith,
  eq_iff, str_eq, elem, if◌then◌else◌, Bool-cases, inl, inr,
}
use cs_server.Events.Row.{Row, Value, get, empty, texts_of}
use cs_server.Events.Protection.{
  Rule, Resolve, event_field_is_absent, protect_field, protect_fields,
  apply_operator_field_protection,
}

module _ (existing new : Row) (eq : Rule) (resolve : Resolve) where
  -- The new source states a value for the field, and it is another one.
  abbrev differs : String → Bool
  differs f =
      not (event_field_is_absent f (get new f) new) && not (eq f (get new f) (get existing f))

  abbrev edited : String → Bool
  edited f = elem f (texts_of (get existing "operator_edited_fields"))

  abbrev pub resolved : String → Value
  resolved f = resolve f (get existing f) (get new f)

  -- The rule for one field.
  abbrev pub decided : String → Option Value
  decided f =
      if differs f && not (edited f) && not (eq f (resolved f) (get existing f))
      then some (resolved f)
      else none

  abbrev or_old : Option Value → Option Value → Option Value
  or_old none old = old
  or_old (some v) old = some v

  abbrev pub any_divergence : List String → Bool
  any_divergence [] = false
  any_divergence (f ∷ fs) = differs f && edited f || any_divergence fs

  protect_field-changed :
      (f g : String) (acc : Row × Bool)
      → (protect_field existing new eq resolve f acc).0 g
        ≡ (if str_eq f g then or_old (decided f) (acc.0 g) else acc.0 g)
  unfolding protect_field
  protect_field-changed f g acc = ground arith

  protect_field-diverges :
      (f : String) (acc : Row × Bool)
      → (protect_field existing new eq resolve f acc).1 ≡ (differs f && edited f || acc.1)
  unfolding protect_field
  protect_field-diverges f acc = ground arith

  protect_fields-changed :
      (fields : List String) (g : String) (acc : Row × Bool)
      → (protect_fields existing new eq resolve fields acc).0 g
        ≡ (if elem g fields then or_old (decided g) (acc.0 g) else acc.0 g)
  unfolding protect_fields
  protect_fields-changed [] g acc = refl
  protect_fields-changed (f ∷ fs) g acc =
      let ih = protect_fields-changed fs g (protect_field existing new eq resolve f acc) in
      let here = protect_field-changed f g acc in
      elim (Bool-cases (str_eq g f)) [
        | inl same ↦
            let e = (eq_iff g f).0 same in ground (arith, ih, here, ap decided e, eq_iff f g)
        | inr other ↦ ground (arith, ih, here, eq_iff f g, eq_iff g f)
      ]

  protect_fields-diverges :
      (fields : List String) (acc : Row × Bool)
      → (protect_fields existing new eq resolve fields acc).1 ≡ (any_divergence fields || acc.1)
  unfolding protect_fields
  protect_fields-diverges [] acc = refl
  protect_fields-diverges (f ∷ fs) acc = ground (
    arith,
    protect_fields-diverges fs (protect_field existing new eq resolve f acc),
    protect_field-diverges f acc,
  )

-- For every field of the list, the update holds the resolved value exactly where the new source states
-- a different value, no operator edited the field, and the resolution differs from what is stored; for
-- a field outside the list it holds nothing; and a divergence is reported exactly where some field
-- of the list was edited and the new source differs from it.
pub apply_operator_field_protection_table :
    (existing new : Row) (eq : Rule) (resolve : Resolve) (fields : List String)
    → let r = apply_operator_field_protection existing new eq resolve fields in
      ((g : String) → r.0 g ≡ (if elem g fields then decided existing new eq resolve g else none))
      × (r.1 ≡ any_divergence existing new eq resolve fields)
unfolding apply_operator_field_protection
apply_operator_field_protection_table existing new eq resolve fields = (
  λ g. ground (arith, protect_fields-changed existing new eq resolve fields g (empty, false)),
  ground (arith, protect_fields-diverges existing new eq resolve fields (empty, false)),
)
