-- ===== src/Python/Regex/Found.antt =====
-- What holds of the matches of a pattern in a text where ignoring case makes no difference, and so of
-- the match that a search finds.
use cs_server.Prelude.{ℕ, Bool, Option, none, some, List, [], ◌∷◌}
use cs_server.Python.Regex.{
  Text, Place, at, Pattern, matched, ◌>>=◌, one_of, search, search_from, first,
}
use cs_server.Python.Regex.Plain.{
  All, then_all-All, All-weaken, EachWord, Plain, Left, Keeps, one_of-word,
}

-- What holds of a match, where one is found.
abbrev pub Found : {A : Type 0} → (A → Type 0) → Option A → Type 0
Found P none = Unit
Found P (some a) = P a

first-Found :
    {A : Type 0} (P : A → Type 0) (ms : List (A × Place)) (o : Option A)
    → All (λ a p. P a) ms
    → Found P o
    → Found P (first ms o)
first-Found P [] o h g = g
first-Found P ((a, p) ∷ ms) o h g = h.0

module _ (same : ℕ → ℕ → Bool) where
  -- What every match in a plain text has.
  pub record Gives {A : Type 0} (P : A → Type 0) (m : Pattern A) : Type 0 where
    pub given : (p : Place) → Plain same p.rest → All (λ a q. P a) (m p)

  pub matched-Gives : {A : Type 0} (P : A → Type 0) (a : A) → P a → Gives P (matched a)
  matched-Gives P a h = record { given = λ p l. (h, tt) }

  pub >>=-Gives :
      {A B : Type 0} (P : B → Type 0) (m : Pattern A) (f : A → Pattern B)
      → Keeps same m
      → ((a : A) → Gives P (f a))
      → Gives P (m >>= f)
  >>=-Gives P m f h g = record {
    given = λ p l. then_all-All (Left same) _ (m p) f (h.left p l) (λ a q k. (g a).given q k);
  }

  pub one_of-Gives :
      {B : Type 0} (W : Text → Type 0) (P : B → Type 0) (ws : List Text) (f : Text → Pattern B)
      → EachWord W ws
      → ((t : Text) → W t → Gives P (f t))
      → Gives P (one_of same ws >>= f)
  one_of-Gives W P ws f h g = record {
    given = λ p l.
        then_all-All (λ t q. W t × Plain same q.rest) _ (one_of same ws p) f
          (one_of-word same W ws p h l) (λ a q k. (g a k.0).given q k.1);
  }

  pub one_of-Gives_word :
      (W : Text → Type 0) (ws : List Text) → EachWord W ws → Gives W (one_of same ws)
  one_of-Gives_word W ws h = record {
    given = λ p l.
        All-weaken (λ t q. W t × Plain same q.rest) _ (one_of same ws p) (λ a q g. g.0)
          (one_of-word same W ws p h l);
  }

-- What every match in a plain text has, the match that is found has.
search_from-Found :
    {A : Type 0} (same : ℕ → ℕ → Bool) (P : A → Type 0) (m : Pattern A)
    → Gives same P m
    → (b : Option ℕ) (cs : Text) → Plain same cs
    → Found P (search_from m b cs)
unfolding search_from
search_from-Found same P m h b [] l = first-Found P (m (at b [])) none (h.given (at b []) l) tt
search_from-Found same P m h b (c ∷ cs) l =
    first-Found P (m (at b (c ∷ cs))) (search_from m (some c) cs) (h.given (at b (c ∷ cs)) l)
      (search_from-Found same P m h (some c) cs l.1)

pub search-Found :
    {A : Type 0} (same : ℕ → ℕ → Bool) (P : A → Type 0) (m : Pattern A)
    → Gives same P m
    → (cs : Text) → Plain same cs
    → Found P (search m cs)
search-Found same P m h cs l = search_from-Found same P m h none cs l
