-- ===== src/Python/Regex/Plain.antt =====
-- Texts in which ignoring case makes no difference, and what patterns match in them: a word of a
-- pattern matches itself alone.
use cs_server.Prelude.{
  ℕ, zero, suc, ◌≡◌, refl, sym, subst, Bool, true, false, Option, none, some, List, [], ◌∷◌, ◌++◌,
  Bool-cases, inl, inr, if◌then◌else◌,
}
use cs_server.Python.Regex.{
  Text, Place, Pattern, matched, then_all, ◌>>=◌, char, one, either, optional, run_from, many,
  up_to, between, word, one_of, boundary, at_edge,
}

-- Whatever all matches have.
abbrev pub All : {A : Type 0} → (A → Place → Type 0) → List (A × Place) → Type 0
All P [] = Unit
All P ((a, p) ∷ ms) = P a p × All P ms

All-append :
    {A : Type 0} (P : A → Place → Type 0) (ms ns : List (A × Place))
    → All P ms
    → All P ns
    → All P (ms ++ ns)
All-append P [] ns h g = g
All-append P ((a, p) ∷ ms) ns h g = (h.0, All-append P ms ns h.1 g)

pub then_all-All :
    {A B : Type 0} (P : A → Place → Type 0) (Q : B → Place → Type 0) (ms : List (A × Place))
    (f : A → Pattern B)
    → All P ms
    → ((a : A) (p : Place) → P a p → All Q (f a p))
    → All Q (then_all ms f)
then_all-All P Q [] f h g = tt
then_all-All P Q ((a, p) ∷ ms) f h g =
    All-append Q (f a p) (then_all ms f) (g a p h.0) (then_all-All P Q ms f h.1 g)

pub All-weaken :
    {A : Type 0} (P Q : A → Place → Type 0) (ms : List (A × Place))
    → ((a : A) (p : Place) → P a p → Q a p)
    → All P ms
    → All Q ms
All-weaken P Q [] g h = tt
All-weaken P Q ((a, p) ∷ ms) g h = (g a p h.0, All-weaken P Q ms g h.1)

abbrev pub EachWord : (Text → Type 0) → List Text → Type 0
EachWord P [] = Unit
EachWord P (w ∷ ws) = P w × EachWord P ws

pub EachWord-both :
    (P Q : Text → Type 0) (ws : List Text)
    → EachWord P ws
    → EachWord Q ws
    → EachWord (λ w. P w × Q w) ws
EachWord-both P Q [] h g = tt
EachWord-both P Q (w ∷ ws) h g = ((h.0, g.0), EachWord-both P Q ws h.1 g.1)

cong_cons : {a b : ℕ} {s t : Text} → a ≡ b → s ≡ t → a ∷ s ≡ b ∷ t
cong_cons e g = rw (e, g) refl

module _ (same : ℕ → ℕ → Bool) where
  -- Each character is the only letter that it matches.
  abbrev pub Plain : Text → Type 0
  Plain [] = Unit
  Plain (c ∷ cs) = ((k : ℕ) → same k c ≡ true → k ≡ c) × Plain cs

  -- What is left of a plain text is plain.
  abbrev pub Left : {A : Type 0} → A → Place → Type 0
  Left a p = Plain p.rest

  pub record Keeps {A : Type 0} (m : Pattern A) : Type 0 where
    pub left : (p : Place) → Plain p.rest → All Left (m p)

  one-Left : (test : ℕ → Bool) (cs : Text) → Plain cs → All Left (one test cs)
  one-Left test [] h = tt
  one-Left test (c ∷ cs) h = elim (Bool-cases (test c)) [ inl b ↦ rw b (h.1, tt) | inr b ↦ rw b tt ]

  pub char-Keeps : (test : ℕ → Bool) → Keeps (char test)
  char-Keeps test = record { left = λ p h. one-Left test p.rest h }

  pub matched-Keeps : {A : Type 0} (a : A) → Keeps (matched a)
  matched-Keeps a = record { left = λ p h. (h, tt) }

  pub >>=-Keeps :
      {A B : Type 0} (m : Pattern A) (f : A → Pattern B)
      → Keeps m
      → ((a : A) → Keeps (f a))
      → Keeps (m >>= f)
  >>=-Keeps m f h g = record {
    left = λ p l. then_all-All Left Left (m p) f (h.left p l) (λ a q k. (g a).left q k);
  }

  pub either-Keeps : {A : Type 0} (m n : Pattern A) → Keeps m → Keeps n → Keeps (either m n)
  either-Keeps m n h g = record {
    left = λ p l. All-append Left (m p) (n p) (h.left p l) (g.left p l);
  }

  pub optional-Keeps : {A : Type 0} (m : Pattern A) → Keeps m → Keeps (optional m)
  optional-Keeps m h =
      either-Keeps _ _ (>>=-Keeps m _ h (λ a. matched-Keeps (some a))) (matched-Keeps none)

  run_from-Left :
      (test : ℕ → Bool) (b : Option ℕ) (cs : Text) → Plain cs → All Left (run_from test b cs)
  unfolding run_from
  run_from-Left test b [] h = (tt, tt)
  run_from-Left test b (c ∷ cs) h = elim (Bool-cases (test c)) [
    | inl e ↦ rw e (
        All-append Left (then_all (run_from test (some c) cs) _) _
          (then_all-All Left Left (run_from test (some c) cs) _ (run_from-Left test (some c) cs h.1)
            (λ a q k. (k, tt)))
          (h, tt))
    | inr e ↦ rw e (h, tt)
  ]

  pub many-Keeps : (test : ℕ → Bool) → Keeps (many test)
  unfolding many
  many-Keeps test = record { left = λ p h. run_from-Left test p.before p.rest h }

  up_to-Keeps : (n : ℕ) (test : ℕ → Bool) → Keeps (up_to n test)
  unfolding up_to
  up_to-Keeps zero test = matched-Keeps []
  up_to-Keeps (suc n) test =
      either-Keeps _ _
        (>>=-Keeps _ _ (char-Keeps test)
          (λ c. >>=-Keeps _ _ (up_to-Keeps n test) (λ t. matched-Keeps (c ∷ t))))
        (matched-Keeps [])

  pub between-Keeps : (n k : ℕ) (test : ℕ → Bool) → Keeps (between n k test)
  unfolding between
  between-Keeps zero k test = up_to-Keeps k test
  between-Keeps (suc n) k test =
      >>=-Keeps _ _ (char-Keeps test)
        (λ c. >>=-Keeps _ _ (between-Keeps n k test) (λ t. matched-Keeps (c ∷ t)))

  if-Left : (b : Bool) (p : Place) → Plain p.rest → All Left (if b then matched tt p else [])
  if-Left true p h = (h, tt)
  if-Left false p h = tt

  pub boundary-Keeps : (is_word : ℕ → Bool) → Keeps (boundary is_word)
  boundary-Keeps is_word = record { left = λ p h. if-Left (at_edge is_word p) p h }

  -- A match of the word is the word.
  abbrev Itself : Text → Text → Place → Type 0
  Itself w t p = (t ≡ w) × Plain p.rest

  letter : (k : ℕ) (cs : Text) → Plain cs → All (λ c p. (c ≡ k) × Plain p.rest) (one (same k) cs)
  letter k [] h = tt
  letter k (c ∷ cs) h = elim (Bool-cases (same k c)) [
    | inl b ↦ rw b ((sym (h.0 k b), h.1), tt)
    | inr b ↦ rw b tt
  ]

  word-Itself : (w : Text) (p : Place) → Plain p.rest → All (Itself w) (word same w p)
  unfolding word
  word-Itself [] p h = ((refl, h), tt)
  word-Itself (k ∷ ks) p h =
      then_all-All (λ c q. (c ≡ k) × Plain q.rest) (Itself (k ∷ ks)) (one (same k) p.rest) _
        (letter k p.rest h)
        (λ c q e.
          then_all-All (Itself ks) (Itself (k ∷ ks)) (word same ks q) _ (word-Itself ks q e.1)
            (λ t r g. ((cong_cons e.0 g.0, g.1), tt)))

  pub word-Keeps : (w : Text) → Keeps (word same w)
  word-Keeps w = record {
    left = λ p h. All-weaken (Itself w) Left (word same w p) (λ a q g. g.1) (word-Itself w p h);
  }

  any_word : (ws : List Text) → EachWord (λ w. Unit) ws
  any_word [] = tt
  any_word (w ∷ ws) = (tt, any_word ws)

  -- A match of `(w₁|w₂|…)` is one of the words.
  pub one_of-word :
      (P : Text → Type 0) (ws : List Text) (p : Place)
      → EachWord P ws
      → Plain p.rest
      → All (λ t q. P t × Plain q.rest) (one_of same ws p)
  unfolding one_of
  one_of-word P [] p e h = tt
  one_of-word P (w ∷ ws) p e h =
      All-append _ (word same w p) (one_of same ws p)
        (All-weaken (Itself w) _ (word same w p) (λ a q g. (subst P (sym g.0) e.0, g.1))
          (word-Itself w p h))
        (one_of-word P ws p e.1 h)

  pub one_of-Keeps : (ws : List Text) → Keeps (one_of same ws)
  one_of-Keeps ws = record {
    left = λ p h.
        All-weaken _ Left (one_of same ws p) (λ a q g. g.1)
          (one_of-word (λ w. Unit) ws p (any_word ws) h);
  }
