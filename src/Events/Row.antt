-- ===== src/Events/Row.antt =====
-- An event row: a Python dictionary from column names to values, missing keys included.
pub mod Equality
use cs_server.Prelude.{
  ℕ, String, ◌≡◌, refl, ◌↔◌, Bool, true, false, ◌&&◌, ◌||◌, Option, none, some, List, [], ◌∷◌,
  arith, ◌==◌, str_eq, eq_iff, if◌then◌else◌,
}

-- One act of a line-up: `{name, type, stage, styles}`.
pub record Attraction : Type 0 where
  pub name : String
  pub type : String
  pub stage : Option String
  pub styles : List String

-- What a column holds. An instant is a calendar day (a count of days) and a minute of that day, in
-- the zone of the value; a confidence is a number on one fixed scale; `raw` is an extraction with its
-- `time_known` entry.
pub data Value : Type 0 where
  null : Value
  text : String → Value
  flag : Bool → Value
  num : ℕ → Value
  instant : ℕ → ℕ → Value
  texts : List String → Value
  acts : List Attraction → Value
  raw : Option Bool → Value

abbrev pub Row : Type 0
Row = String → Option Value

abbrev pub empty : Row
empty k = none

-- `{**row, k: v}`
abbrev pub put : String → Value → Row → Row
put k v row j = if str_eq k j then some v else row j

-- `{**row, **more}`
abbrev pub merge : Row → Row → Row
merge row more j = elim (more j) [ none ↦ row j | some v ↦ some v ]

abbrev pub or_null : Option Value → Value
or_null none = null
or_null (some v) = v

-- `row.get(k)`
abbrev pub get : Row → String → Value
get row k = or_null (row k)

abbrev pub is_null : Value → Bool
is_null null = true
is_null _ = false

abbrev pub bool_eq : Bool → Bool → Bool
bool_eq true b = b
bool_eq false true = false
bool_eq false false = true

abbrev pub option_eq : Option String → Option String → Bool
option_eq none none = true
option_eq (some a) (some b) = str_eq a b
option_eq _ _ = false

abbrev pub texts_eq : List String → List String → Bool
texts_eq [] [] = true
texts_eq (a ∷ as') (b ∷ bs) = str_eq a b && texts_eq as' bs
texts_eq _ _ = false

abbrev act_eq : Attraction → Attraction → Bool
act_eq a b =
    str_eq a.name b.name
    && str_eq a.type b.type
    && option_eq a.stage b.stage
    && texts_eq a.styles b.styles

abbrev pub acts_eq : List Attraction → List Attraction → Bool
acts_eq [] [] = true
acts_eq (a ∷ as') (b ∷ bs) = act_eq a b && acts_eq as' bs
acts_eq _ _ = false

abbrev raw_eq : Option Bool → Option Bool → Bool
raw_eq none none = true
raw_eq (some a) (some b) = bool_eq a b
raw_eq _ _ = false

-- `a == b` of two values of one column.
abbrev pub value_eq : Value → Value → Bool
value_eq null null = true
value_eq (text a) (text b) = str_eq a b
value_eq (flag a) (flag b) = bool_eq a b
value_eq (num a) (num b) = a == b
value_eq (instant d m) (instant e n) = d == e && m == n
value_eq (texts a) (texts b) = texts_eq a b
value_eq (acts a) (acts b) = acts_eq a b
value_eq (raw a) (raw b) = raw_eq a b
value_eq _ _ = false

-- A JSON list column, `row.get(k) or []`.
abbrev pub texts_of : Value → List String
texts_of (texts l) = l
texts_of _ = []

abbrev pub acts_of : Value → List Attraction
acts_of (acts l) = l
acts_of _ = []
