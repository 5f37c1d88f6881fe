-- ===== src/Events/Row/Equality.antt =====
-- Every value equals itself.
use cs_server.Prelude.{
  String, ◌≡◌, refl, Bool, true, false, Option, none, some, List, [], ◌∷◌, arith, eq_refl,
}
use cs_server.Events.Row.{
  Value, Attraction, null, text, flag, num, instant, texts, acts, raw, value_eq, texts_eq, acts_eq,
  bool_eq, option_eq,
}

texts_eq_refl : (a : List String) → texts_eq a a ≡ true
texts_eq_refl [] = refl
texts_eq_refl (x ∷ xs) = ground (arith, eq_refl x, texts_eq_refl xs)

option_eq_refl : (a : Option String) → option_eq a a ≡ true
option_eq_refl none = refl
option_eq_refl (some a) = eq_refl a

acts_eq_refl : (a : List Attraction) → acts_eq a a ≡ true
acts_eq_refl [] = refl
acts_eq_refl (x ∷ xs) = ground (
  arith,
  eq_refl x.name,
  eq_refl x.type,
  option_eq_refl x.stage,
  texts_eq_refl x.styles,
  acts_eq_refl xs,
)

bool_eq_refl : (b : Bool) → bool_eq b b ≡ true
bool_eq_refl true = refl
bool_eq_refl false = refl

pub value_eq_refl : (v : Value) → value_eq v v ≡ true
value_eq_refl null = refl
value_eq_refl (text a) = eq_refl a
value_eq_refl (flag b) = bool_eq_refl b
value_eq_refl (num n) = ground arith
value_eq_refl (instant d m) = ground arith
value_eq_refl (texts a) = texts_eq_refl a
value_eq_refl (acts a) = acts_eq_refl a
value_eq_refl (raw none) = refl
value_eq_refl (raw (some b)) = bool_eq_refl b
