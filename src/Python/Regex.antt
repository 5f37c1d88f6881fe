-- ===== src/Python/Regex.antt =====
-- Python's `re` as far as the code uses it. A pattern is a function from a place in the text to its
-- matches there, in the order in which a backtracking matcher tries them; `search` takes the first
-- match at the leftmost place that has one, and `finditer` goes on where a match ended. What a match
-- yields are the groups that the code reads.
pub mod Plain
pub mod Found
use cs_server.Prelude.{
  ℕ, zero, suc, ◌+◌, ◌-◌, ◌*◌, Bool, true, false, not, ◌&&◌, ◌||◌, Option, none, some, List, [],
  ◌∷◌, ◌++◌, map, length, if◌then◌else◌,
}

abbrev pub Text : Type 0
Text = List ℕ

-- Unicode's tables: the value of a decimal digit, the class `\w`, the class `\s` (which is also what
-- `str.strip` takes off), `str.lower`, and whether a character matches a letter of a pattern that
-- ignores case.
pub record Unicode : Type 0 where
  pub decimal : ℕ → Option ℕ
  pub is_word : ℕ → Bool
  pub is_space : ℕ → Bool
  pub lower : Text → Text
  pub same_letter : ℕ → ℕ → Bool

-- The character before a place, and the text from there on.
pub record Place : Type 0 where
  pub before : Option ℕ
  pub rest : Text

abbrev pub at : Option ℕ → Text → Place
at b cs = record { before = b; rest = cs }

abbrev pub Pattern : Type 0 → Type 0
Pattern A = Place → List (A × Place)

abbrev pub matched : {A : Type 0} → A → Pattern A
matched a p = (a, p) ∷ []

abbrev pub then_all : {A B : Type 0} → List (A × Place) → (A → Pattern B) → List (B × Place)
then_all [] f = []
then_all ((a, p) ∷ ms) f = f a p ++ then_all ms f

infixl 5 ◌>>=◌ ◌>>◌
abbrev pub ◌>>=◌ : {A B : Type 0} → Pattern A → (A → Pattern B) → Pattern B
◌>>=◌ m f p = then_all (m p) f

abbrev pub ◌>>◌ : {A B : Type 0} → Pattern A → Pattern B → Pattern B
◌>>◌ m k = m >>= λ _. k

abbrev pub one : (ℕ → Bool) → Text → List (ℕ × Place)
one test [] = []
one test (c ∷ cs) = if test c then (c, at (some c) cs) ∷ [] else []

-- One character of a class.
abbrev pub char : (ℕ → Bool) → Pattern ℕ
char test p = one test p.rest

abbrev pub either : {A : Type 0} → Pattern A → Pattern A → Pattern A
either m n p = m p ++ n p

-- `(…)?`, with a match tried first.
abbrev pub optional : {A : Type 0} → Pattern A → Pattern (Option A)
optional m = either (m >>= λ a. matched (some a)) (matched none)

unfoldable pub run_from : (ℕ → Bool) → Option ℕ → Text → List (Text × Place)
run_from test b [] = ([], at b []) ∷ []
run_from test b (c ∷ cs) =
    let longer = then_all (run_from test (some c) cs) (λ t. matched (c ∷ t)) in
    if test c then longer ++ matched [] (at b (c ∷ cs)) else matched [] (at b (c ∷ cs))

-- `[…]*`, the longest run first.
unfoldable pub many : (ℕ → Bool) → Pattern Text
unfolding run_from
many test p = run_from test p.before p.rest

-- `[…]+`
abbrev pub some_of : (ℕ → Bool) → Pattern Text
some_of test = char test >>= λ c. many test >>= λ t. matched (c ∷ t)

-- `[…]{0,n}`, the longest run first.
unfoldable pub up_to : ℕ → (ℕ → Bool) → Pattern Text
up_to zero test = matched []
up_to (suc n) test = either (char test >>= λ c. up_to n test >>= λ t. matched (c ∷ t)) (matched [])

-- `[…]{0,n}?`, the shortest run first.
unfoldable pub lazy_up_to : ℕ → (ℕ → Bool) → Pattern Text
lazy_up_to zero test = matched []
lazy_up_to (suc n) test =
    either (matched []) (char test >>= λ c. lazy_up_to n test >>= λ t. matched (c ∷ t))

-- `[…]{n,n+k}`
unfoldable pub between : ℕ → ℕ → (ℕ → Bool) → Pattern Text
unfolding up_to
between zero k test = up_to k test
between (suc n) k test = char test >>= λ c. between n k test >>= λ t. matched (c ∷ t)

-- A word of the pattern; the text that matches it.
unfoldable pub word : (ℕ → ℕ → Bool) → Text → Pattern Text
word same [] = matched []
word same (k ∷ ks) = char (same k) >>= λ c. word same ks >>= λ t. matched (c ∷ t)

-- `(w₁|w₂|…)`
unfoldable pub one_of : (ℕ → ℕ → Bool) → List Text → Pattern Text
unfolding word
one_of same [] p = []
one_of same (w ∷ ws) p = word same w p ++ one_of same ws p

abbrev word_at : (ℕ → Bool) → Text → Bool
word_at is_word [] = false
word_at is_word (c ∷ cs) = is_word c

abbrev word_before : (ℕ → Bool) → Option ℕ → Bool
word_before is_word none = false
word_before is_word (some c) = is_word c

abbrev pub at_edge : (ℕ → Bool) → Place → Bool
at_edge is_word p =
    let a = word_before is_word p.before in
    let b = word_at is_word p.rest in a && not b || not a && b

-- `\b`
abbrev pub boundary : (ℕ → Bool) → Pattern (Unit {0})
boundary is_word p = if at_edge is_word p then matched tt p else []

abbrev pub first : {A : Type 0} → List (A × Place) → Option A → Option A
first [] o = o
first ((a, p) ∷ ms) o = some a

unfoldable pub search_from : {A : Type 0} → Pattern A → Option ℕ → Text → Option A
search_from m b [] = first (m (at b [])) none
search_from m b (c ∷ cs) = let rest = search_from m (some c) cs in first (m (at b (c ∷ cs))) rest

-- `pattern.search(text)`
abbrev pub search : {A : Type 0} → Pattern A → Text → Option A
search m t = search_from m none t

-- The place after a match, as the number of characters left out of the scan, and what it yields.
abbrev found : {A : Type 0} → List (A × Place) → Text → Option (A × ℕ)
found [] cs = none
found ((a, p) ∷ ms) cs = some (a, length cs - length p.rest)

abbrev cons_some : {A : Type 0} → Option (A × ℕ) → List A → List A
cons_some none as' = as'
cons_some (some (a, n)) as' = a ∷ as'

-- The characters that a match at this one takes beyond it.
abbrev beyond : {A : Type 0} → Option (A × ℕ) → ℕ
beyond none = 0
beyond (some (a, n)) = n - 1

-- `skip` characters belong to the last match.
unfoldable pub finditer_from : {A : Type 0} → Pattern A → ℕ → Option ℕ → Text → List A
finditer_from m skip b [] = []
finditer_from m (suc skip) b (c ∷ cs) = finditer_from m skip (some c) cs
finditer_from m zero b (c ∷ cs) =
    let here = found (m (at b (c ∷ cs))) (c ∷ cs) in
    cons_some here (finditer_from m (beyond here) (some c) cs)

-- `pattern.finditer(text)`, for a pattern that matches no empty text.
abbrev pub finditer : {A : Type 0} → Pattern A → Text → List A
finditer m t = finditer_from m 0 none t

-- `\d`
abbrev pub is_digit : Unicode → ℕ → Bool
is_digit u c = elim (u.decimal c) [ none ↦ false | some d ↦ true ]

abbrev digit_value : Option ℕ → ℕ
digit_value none = 0
digit_value (some d) = d

-- `int(…)` of digits, after those that gave `n`.
unfoldable pub number_from : Unicode → ℕ → Text → ℕ
number_from u n [] = n
number_from u n (c ∷ cs) = number_from u (n * 10 + digit_value (u.decimal c)) cs

abbrev pub number : Unicode → Text → ℕ
number u t = number_from u 0 t

lstrip : Unicode → Text → Text
lstrip u [] = []
lstrip u (c ∷ cs) = let rest = lstrip u cs in if u.is_space c then rest else c ∷ cs

rstrip : Unicode → Text → Text
rstrip u [] = []
rstrip u (c ∷ cs) = elim (rstrip u cs) [
  | [] ↦ (if u.is_space c then [] else c ∷ [])
  | x ∷ xs ↦ c ∷ x ∷ xs
]

-- `text.strip()`
unfoldable pub strip : Unicode → Text → Text
unfolding lstrip rstrip
strip u t = rstrip u (lstrip u t)
