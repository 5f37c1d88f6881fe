-- ===== src/Events/Unions.antt =====
-- `union_lineup` and `union_attractions` of app/services/event_reconciliation.py.
pub mod Lineup
pub mod Acts
use cs_server.Prelude.{
  ℕ, String, Bool, true, false, ◌&&◌, ◌||◌, Option, none, some, List, [], ◌∷◌, ◌++◌, str_eq, elem,
  map, if◌then◌else◌,
}
use cs_server.Events.Row.{Attraction, text, option_eq}
use cs_server.Events.Identity.{TextTables, normalize_title, points_eq}

-- The inner loop: each item that is not seen yet goes to the end.
unfoldable pub add_new : List String → List String → List String
add_new out [] = out
add_new out (x ∷ xs) = add_new (if elem x out then out else out ++ x ∷ []) xs

unfoldable pub union_lineup : List String → List String → List String
unfolding add_new
union_lineup a b = add_new (add_new [] a) b

-- A slot of the fold: an act with its normalised name.
pub record Slot : Type 0 where
  pub norm : List ℕ
  pub name : String
  pub type : String
  pub stage : Option String
  pub styles : List String

abbrev is_specific : String → Bool
is_specific t = str_eq t "dj" || str_eq t "live"

abbrev type_or_other : String → String
type_or_other t = if str_eq t "" then "other" else t

abbrev fill_stage : Option String → Option String → Option String
fill_stage none new = new
fill_stage (some s) new = some s

-- An entry that was matched to a slot: the stage is filled in, a specific type replaces `other`, and
-- new styles are added.
unfoldable pub absorb : Attraction → Slot → Slot
unfolding add_new
absorb a s = record s {
  stage = fill_stage s.stage a.stage;
  type =
      if str_eq s.type "other" && is_specific (type_or_other a.type)
      then type_or_other a.type
      else s.type;
  styles = add_new s.styles a.styles;
}

abbrev pub extend : Slot → Option (List Slot) → Option (List Slot)
extend s none = none
extend s (some ss) = some (s ∷ ss)

-- Change the first slot that passes the test, if there is one.
unfoldable pub change_first : (Slot → Bool) → (Slot → Slot) → List Slot → Option (List Slot)
change_first test f [] = none
change_first test f (s ∷ ss) =
    let rest = change_first test f ss in if test s then some (f s ∷ ss) else extend s rest

module _ (u : TextTables) where
  abbrev pub norm_of : Attraction → List ℕ
  norm_of a = normalize_title u (text a.name)

  unfoldable pub new_slot : Attraction → Slot
  unfolding add_new
  new_slot a = record {
    norm = norm_of a;
    name = a.name;
    type = if is_specific (type_or_other a.type) then type_or_other a.type else "other";
    stage = a.stage;
    styles = add_new [] a.styles;
  }

  -- Where no stage of that name is the same: an entry with a stage takes a slot that has none, an
  -- entry without one takes any slot of that name.
  abbrev pub fallback : List ℕ → Option String → Slot → Bool
  fallback norm none s = points_eq s.norm norm
  fallback norm (some stage) s = points_eq s.norm norm && option_eq s.stage none

  abbrev pub exact : List ℕ → Option String → Slot → Bool
  exact norm stage s = points_eq s.norm norm && option_eq s.stage stage

  abbrev pub or_else : Option (List Slot) → List Slot → List Slot
  or_else none d = d
  or_else (some ss) d = ss

  unfoldable pub place : List Slot → Attraction → List Slot
  unfolding change_first absorb new_slot
  place slots a = or_else (change_first (exact (norm_of a) a.stage) (absorb a) slots) (
      or_else (change_first (fallback (norm_of a) a.stage) (absorb a) slots)
        (slots ++ new_slot a ∷ []))

  unfoldable pub place_all : List Slot → List Attraction → List Slot
  unfolding place
  place_all slots [] = slots
  place_all slots (a ∷ as') = place_all (place slots a) as'

  abbrev pub act_of : Slot → Attraction
  act_of s = record { name = s.name; type = s.type; stage = s.stage; styles = s.styles }

  unfoldable pub union_attractions : List Attraction → List Attraction → List Attraction
  unfolding place_all
  union_attractions a b = map act_of (place_all (place_all [] a) b)
