-- ===== src/Python/Json.antt =====
-- JSON values as `json.loads` returns them, `dict.get`, and the conversion `int(...)`.
-- A number with a fraction is a decimal, `decimal m k` for m / 10 ^ k (the rounding of Python's
-- floats is left out). `int` of a text reads ASCII digits with a sign, between ASCII blanks.
use Prim.Native.Char.{code}
use cs_server.Prelude.{
  ℕ, zero, suc, ◌+◌, ◌-◌, ◌*◌, ◌/◌, ◌^◌, String, Bool, true, false, not, ◌&&◌, ◌||◌, Option, none,
  some, List, [], ◌∷◌, ◌==◌, leb, str_eq, if◌then◌else◌,
}
use cs_server.Prelude.Int.{ℤ, pos, negsuc}
use cs_server.Python.Except.{Result, ok, raised, type_error, value_error}

mutual
  pub data Json : Type 0 where
    null : Json
    bool : Bool → Json
    int : ℤ → Json
    decimal : ℤ → ℕ → Json
    str : String → Json
    arr : Items → Json
    obj : Fields → Json

  pub data Items : Type 0 where
    nil : Items
    cons : Json → Items → Items

  pub data Fields : Type 0 where
    end : Fields
    field : String → Json → Fields → Fields

-- `cfg.get(key)`, `none` where the key is missing. A repeated key has its last value in Python;
-- `json.loads` has dropped the earlier ones by then.
unfoldable pub get : String → Fields → Option Json
get k end = none
get k (field j v fs) = if str_eq j k then some v else get k fs

abbrev negate : ℕ → ℤ
negate zero = pos 0
negate (suc m) = negsuc m

-- Round toward zero, as `int` of a float does.
abbrev truncate : ℤ → ℕ → ℤ
truncate (pos n) k = pos (n / 10 ^ k)
truncate (negsuc n) k = negate (suc n / 10 ^ k)

abbrev pub codes : String → List ℕ
codes String.[] = []
codes (String.◌∷◌ c s) = code c ∷ codes s

abbrev is_blank : ℕ → Bool
is_blank c = c == 32 || leb 9 c && leb c 13 || leb 28 c && leb c 31

skip_blanks : List ℕ → List ℕ
skip_blanks [] = []
skip_blanks (c ∷ cs) = let rest = skip_blanks cs in if is_blank c then rest else c ∷ cs

-- What may follow the digits.
closing : List ℕ → ℕ → Option ℕ
closing rest n = elim (skip_blanks rest) [ [] ↦ some n | _ ↦ none ]

-- The digits from the left, then blanks to the end; one `_` may stand between two digits.
digits : Bool → ℕ → List ℕ → Option ℕ
digits after_digit n [] = if after_digit then some n else none
digits after_digit n (c ∷ cs) =
    let more = digits true (n * 10 + (c - 48)) cs in
    let gap = digits false n cs in
    if leb 48 c && leb c 57
    then more
    else (if c == 95 && after_digit
        then gap
        else (if after_digit then closing (c ∷ cs) n else none))

abbrev signed : Bool → Option ℕ → Option ℤ
signed minus none = none
signed true (some n) = some (negate n)
signed false (some n) = some (pos n)

abbrev after_sign : List ℕ → Option ℤ
after_sign [] = none
after_sign (c ∷ cs) =
    if c == b'-'
    then signed true (digits false 0 cs)
    else signed false (digits false 0 (if c == b'+' then cs else c ∷ cs))

unfoldable pub int_of_text : String → Option ℤ
unfolding skip_blanks digits closing
int_of_text s = after_sign (skip_blanks (codes s))

abbrev or_value_error : Option ℤ → Result ℤ
or_value_error none = raised value_error
or_value_error (some n) = ok n

-- `int(value)`. A bool is an int in Python.
unfoldable pub to_int : Json → Result ℤ
to_int null = raised type_error
to_int (bool b) = ok (pos (if b then 1 else 0))
to_int (int n) = ok n
to_int (decimal m k) = ok (truncate m k)
to_int (str s) = or_value_error (int_of_text s)
to_int (arr xs) = raised type_error
to_int (obj fs) = raised type_error

abbrev is_zero : ℤ → Bool
is_zero (pos n) = n == 0
is_zero (negsuc n) = false

-- Whether Python counts a value as true.
abbrev pub truthy : Option Json → Bool
truthy none = false
truthy (some null) = false
truthy (some (bool b)) = b
truthy (some (int n)) = not (is_zero n)
truthy (some (decimal m k)) = not (is_zero m)
truthy (some (str s)) = not (str_eq s "")
truthy (some (arr nil)) = false
truthy (some (arr _)) = true
truthy (some (obj end)) = false
truthy (some (obj _)) = true
