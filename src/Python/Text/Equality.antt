-- ===== src/Python/Text/Equality.antt =====
-- The equality test on texts decides equality, and a text is found exactly where it is listed.
use cs_server.Prelude.{
  ◌≡◌, refl, true, ◌||◌, List, [], ◌∷◌, ◌++◌, ◌==◌, arith, Bool-cases, inl, inr,
}
use cs_server.Python.Regex.{Text}
use cs_server.Python.Text.{text_eq, is_one_of}

pub text_eq_self : (t : Text) → text_eq t t ≡ true
unfolding text_eq
text_eq_self [] = refl
text_eq_self (c ∷ cs) = ground (arith, text_eq_self cs)

pub text_eq_eq : (s t : Text) → text_eq s t ≡ true → s ≡ t
unfolding text_eq
text_eq_eq [] [] h = refl
text_eq_eq [] (d ∷ ds) h = absurd (cc h)
text_eq_eq (c ∷ cs) [] h = absurd (cc h)
text_eq_eq (c ∷ cs) (d ∷ ds) h = elim (Bool-cases (c == d)) [
  | inl e ↦
      let heads : c ≡ d = ground arith in
      let tails = text_eq_eq cs ds (ground arith) in cc (heads, tails)
  | inr e ↦ ground arith
]

pub is_one_of-append :
    (t : Text) (xs ys : List Text) → is_one_of t (xs ++ ys) ≡ (is_one_of t xs || is_one_of t ys)
unfolding is_one_of
is_one_of-append t [] ys = refl
is_one_of-append t (x ∷ xs) ys = ground (arith, is_one_of-append t xs ys)
