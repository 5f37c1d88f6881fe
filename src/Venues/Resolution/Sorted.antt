-- ===== src/Venues/Resolution/Sorted.antt =====
-- The ranking of the venues by name: it loses none and adds none, and no venue ranks before an earlier
-- one.
use mathlib.Core.List.{Perm}
use mathlib.Core.List.Perm
use cs_server.Prelude.{
  ℕ, ◌≤◌, ◌≡◌, refl, inl, inr, true, false, Option, none, some, List, [], ◌∷◌, map, Bool-cases,
  arith,
}
use cs_server.Prelude.Int.{ℤ}
use cs_server.Python.Text.{is_empty}
use cs_server.Instagram.Similarity.{Names}
use cs_server.Python.Regex.{Text}
use cs_server.Python.Round.{round_to}
use cs_server.Venues.Links.{VenueLite, LinkCandidate, round_score}
use cs_server.Venues.Ranking.{
  Scored, ranks_before, nearer, insert, sort, candidate_of, score_venues, name_match_candidates,
}

abbrev pub Every {ℓ} : {A : Type ℓ} → (A → Type 0) → List A → Type 0
Every P [] = Unit
Every P (x ∷ xs) = P x × Every P xs

pub Every-weaken {ℓ} :
    {A : Type ℓ} (P Q : A → Type 0) (xs : List A) → ((x : A) → P x → Q x) → Every P xs → Every Q xs
Every-weaken P Q [] f h = tt
Every-weaken P Q (x ∷ xs) f (a, h) = (f x a, Every-weaken P Q xs f h)

-- Each one before what does not rank before it.
abbrev pub InOrder : List Scored → Type 0
InOrder [] = Unit
InOrder (a ∷ as') = Every (λ b. ranks_before b a ≡ false) as' × InOrder as'

nearer_trans : (a b c : Option ℕ) → nearer b a ≡ false → nearer c b ≡ false → nearer c a ≡ false
nearer_trans (some a) (some b) (some c) h g = ground arith
nearer_trans (some a) none (some c) h g = absurd (cc g)
nearer_trans a b none h g = refl
nearer_trans none (some b) (some c) h g = absurd (cc h)
nearer_trans none none (some c) h g = g

ranks_before_trans :
    (a b c : Scored)
    → ranks_before b a ≡ false
    → ranks_before c b ≡ false
    → ranks_before c a ≡ false
ranks_before_trans a b c h g = ground (arith, nearer_trans a.distance b.distance c.distance)

nearer_asym : (a b : Option ℕ) → nearer a b ≡ true → nearer b a ≡ false
nearer_asym (some a) (some b) h = ground arith
nearer_asym (some a) none h = refl
nearer_asym none b h = absurd (cc h)

ranks_before_asym : (a b : Scored) → ranks_before a b ≡ true → ranks_before b a ≡ false
ranks_before_asym a b h = ground (arith, nearer_asym a.distance b.distance)

insert-Every :
    (P : Scored → Type 0) (a : Scored) (bs : List Scored) → P a → Every P bs → Every P (insert a bs)
unfolding insert
insert-Every P a [] h g = (h, tt)
insert-Every P a (b ∷ bs) h (k, g) = elim (Bool-cases (ranks_before b a)) [
  | inl e ↦ rw e (k, insert-Every P a bs h g)
  | inr e ↦ rw e (h, (k, g))
]

insert-InOrder : (a : Scored) (bs : List Scored) → InOrder bs → InOrder (insert a bs)
unfolding insert
insert-InOrder a [] h = (tt, tt)
insert-InOrder a (b ∷ bs) (below, h) = elim (Bool-cases (ranks_before b a)) [
  | inl e ↦ rw e (
    insert-Every (λ c. ranks_before c b ≡ false) a bs (ranks_before_asym b a e) below,
    insert-InOrder a bs h,
  )
  | inr e ↦
      let later =
        Every-weaken (λ c. ranks_before c b ≡ false) (λ c. ranks_before c a ≡ false) bs
          (λ c g. ranks_before_trans a b c e g) below in
      rw e ((e, later), (below, h))
]

pub sort-InOrder : (as' : List Scored) → InOrder (sort as')
unfolding sort
sort-InOrder [] = tt
sort-InOrder (a ∷ as') = insert-InOrder a (sort as') (sort-InOrder as')

insert-perm : (a : Scored) (bs : List Scored) → Perm (insert a bs) (a ∷ bs)
unfolding insert
insert-perm a [] = Perm.refl (a ∷ [])
insert-perm a (b ∷ bs) = elim (Bool-cases (ranks_before b a)) [
  | inl e ↦ rw e (Perm.trans (Perm.cons b (insert-perm a bs)) (Perm.swap a b bs))
  | inr e ↦ rw e (Perm.refl (a ∷ b ∷ bs))
]

pub sort-Every : (P : Scored → Type 0) (as' : List Scored) → Every P as' → Every P (sort as')
unfolding sort
sort-Every P [] h = tt
sort-Every P (a ∷ as') (k, h) = insert-Every P a (sort as') k (sort-Every P as' h)

pub sort-perm : (as' : List Scored) → Perm (sort as') as'
unfolding sort
sort-perm [] = Perm.refl []
sort-perm (a ∷ as') = Perm.trans (insert-perm a (sort as')) (Perm.cons a (sort-perm as'))

round_score_mono : (a b : ℕ) → a ≤ b → round_score a ≤ round_score b
unfolding round_to
round_score_mono a b h = ground arith

-- The scores of a list of candidates do not rise.
abbrev pub Descends : List LinkCandidate → Type 0
Descends [] = Unit
Descends (c ∷ cs) = Every (λ d. d.score ≤ c.score) cs × Descends cs

ranks-score : (a b : Scored) → ranks_before b a ≡ false → round_score b.score ≤ round_score a.score
ranks-score a b h = round_score_mono b.score a.score (ground arith)

candidates-Every :
    (t : Text) (a : Scored) (as' : List Scored)
    → Every (λ b. ranks_before b a ≡ false) as'
    → Every (λ d. d.score ≤ round_score a.score) (map (candidate_of t) as')
candidates-Every t a [] h = tt
candidates-Every t a (b ∷ bs) (first, h) = (ranks-score a b first, candidates-Every t a bs h)

candidates-Descends :
    (t : Text) (as' : List Scored) → InOrder as' → Descends (map (candidate_of t) as')
candidates-Descends t [] h = tt
candidates-Descends t (a ∷ as') (below, h) =
    (candidates-Every t a as' below, candidates-Descends t as' h)

module _ (n : Names) (haversine : ℤ × ℤ → ℤ × ℤ → ℕ) where
  pub name_match_candidates-Descends :
      (text : Option Text) (venues : List VenueLite) (coords : Option (ℤ × ℤ))
      → Descends (name_match_candidates n haversine text venues coords)
  unfolding name_match_candidates
  name_match_candidates-Descends none venues coords = tt
  name_match_candidates-Descends (some t) venues coords = elim (Bool-cases (is_empty t)) [
    | inl e ↦ rw e tt
    | inr e ↦ rw e (
        candidates-Descends t (sort (score_venues n haversine t coords venues))
          (sort-InOrder (score_venues n haversine t coords venues)))
  ]
