-- ===== src/Events/Merge/Canonical.antt =====
-- Which event of a group survives the merge.
use cs_server.Prelude.{
  ℕ, suc, ◌≤◌, ◌≡◌, refl, sym, ap, subst, ◌⊎◌, inl, inr, true, false, none, some, List, [], ◌∷◌,
  arith, if◌then◌else◌, Bool-cases, length,
}
use cs_server.Python.Json.{codes}
use cs_server.Events.Row.{Row}
use cs_server.Events.Posts.{is_protected, event_id_of}
use cs_server.Events.Reconcile.Writes.{All, In}
use cs_server.Events.Merge.{points_lt, id_lt, oldest, protected_events, sole_or, choose_canonical}

points_lt_irrefl : (a : List ℕ) → points_lt a a ≡ false
unfolding points_lt
points_lt_irrefl [] = refl
points_lt_irrefl (x ∷ xs) = ground (arith, points_lt_irrefl xs)

-- "Not before" is transitive.
points_lt_trans :
    (a b c : List ℕ) → points_lt b a ≡ false → points_lt c b ≡ false → points_lt c a ≡ false
unfolding points_lt
points_lt_trans [] [] [] h k = refl
points_lt_trans [] [] (z ∷ c) h k = refl
points_lt_trans [] (y ∷ b) [] h k = cc
points_lt_trans [] (y ∷ b) (z ∷ c) h k = refl
points_lt_trans (x ∷ a) [] c h k = cc
points_lt_trans (x ∷ a) (y ∷ b) [] h k = cc
points_lt_trans (x ∷ a) (y ∷ b) (z ∷ c) h k = ground (arith, points_lt_trans a b c)

-- No row of the list has a smaller id.
abbrev NoneBefore : Row → List Row → Type 0
NoneBefore c = All (λ (r : Row). id_lt r c ≡ false)

NoneBefore-trans :
    (a b : Row) (rs : List Row) → id_lt b a ≡ false → NoneBefore b rs → NoneBefore a rs
NoneBefore-trans a b [] h k = tt
NoneBefore-trans a b (r ∷ rs) h k = (
  points_lt_trans (codes (event_id_of a)) (codes (event_id_of b)) (codes (event_id_of r)) h k.0,
  NoneBefore-trans a b rs h k.1,
)

points_lt-asym : (a b : List ℕ) → points_lt a b ≡ true → points_lt b a ≡ false
unfolding points_lt
points_lt-asym [] [] h = cc
points_lt-asym [] (y ∷ b) h = refl
points_lt-asym (x ∷ a) [] h = cc
points_lt-asym (x ∷ a) (y ∷ b) h = ground (arith, points_lt-asym a b)

-- The row is in the group, and no row of the group has a smaller id.
abbrev pub IsOldest : Row → List Row → Type 0
IsOldest o group = In o group × NoneBefore o group

oldest_younger : (e x : Row) (xs : List Row) → id_lt x e ≡ true → oldest e (x ∷ xs) ≡ oldest x xs
unfolding oldest
oldest_younger e x xs h = rw h

oldest_older : (e x : Row) (xs : List Row) → id_lt x e ≡ false → oldest e (x ∷ xs) ≡ oldest e xs
unfolding oldest
oldest_older e x xs h = rw h

In-skip : (r e x : Row) (xs : List Row) → In r (e ∷ xs) → In r (e ∷ x ∷ xs)
In-skip r e x xs (inl p) = inl p
In-skip r e x xs (inr q) = inr (inr q)

oldest-IsOldest : (e : Row) (xs : List Row) → IsOldest (oldest e xs) (e ∷ xs)
unfolding oldest
oldest-IsOldest e [] = (inl refl, (points_lt_irrefl (codes (event_id_of e)), tt))
oldest-IsOldest e (x ∷ xs) = elim (Bool-cases (id_lt x e)) [
  | inl younger ↦
      let (i, n) = oldest-IsOldest x xs in
      subst (λ o. IsOldest o (e ∷ x ∷ xs)) (sym (oldest_younger e x xs younger))
        (
          inr i,
          (
            points_lt_trans (codes (event_id_of (oldest x xs))) (codes (event_id_of x))
                (codes (event_id_of e)) n.0
                (points_lt-asym (codes (event_id_of x)) (codes (event_id_of e)) younger),
            n,
          ),
        )
  | inr older ↦
      let (i, n) = oldest-IsOldest e xs in
      subst (λ o. IsOldest o (e ∷ x ∷ xs)) (sym (oldest_older e x xs older))
        (
          In-skip (oldest e xs) e x xs i,
          (
            n.0,
            (
              points_lt_trans (codes (event_id_of (oldest e xs))) (codes (event_id_of e))
                  (codes (event_id_of x)) n.0 older,
              n.1,
            ),
          ),
        )
]

-- How many events an operator's decision protects.
pub count_protected : List Row → ℕ
count_protected [] = 0
count_protected (r ∷ rs) =
    let rest = count_protected rs in if is_protected r then suc rest else rest

protected_events-count : (rs : List Row) → length (protected_events rs) ≡ count_protected rs
unfolding protected_events count_protected
protected_events-count [] = refl
protected_events-count (r ∷ rs) = ground (arith, protected_events-count rs)

protected_events-none :
    (rs : List Row) → protected_events rs ≡ [] → All (λ (r : Row). is_protected r ≡ false) rs
unfolding protected_events
protected_events-none [] h = tt
protected_events-none (r ∷ rs) h = elim (Bool-cases (is_protected r)) [
  | inl held ↦ absurd (cc (rw held at h))
  | inr free ↦ (free, protected_events-none rs (rw free at h))
]

-- The event is in the group, an operator's decision protects it, and no other event of the group.
abbrev pub IsSole : Row → List Row → Type 0
IsSole p group =
    In p group × (is_protected p ≡ true) × All (λ (r : Row). is_protected r ≡ true → r ≡ p) group

none_other :
    (p : Row) (rs : List Row)
    → All (λ (r : Row). is_protected r ≡ false) rs
    → All (λ (r : Row). is_protected r ≡ true → r ≡ p) rs
none_other p [] h = tt
none_other p (r ∷ rs) h = ((λ t. cc (h.0, t)), none_other p rs h.1)

protected_events-one : (rs : List Row) (p : Row) → protected_events rs ≡ p ∷ [] → IsSole p rs
unfolding protected_events
protected_events-one [] p h = absurd (cc)
protected_events-one (r ∷ rs) p h = elim (Bool-cases (is_protected r)) [
  | inl held ↦
      let k = rw held at h in
      let e : r ≡ p = cc k in
      (inl (sym e), rw (← e) held, ((λ t. e), none_other p rs (protected_events-none rs (cc k))))
  | inr free ↦
      let (i, t, a) = protected_events-one rs p (rw free at h) in
      (inr i, t, ((λ t'. cc (free, t')), a))
]

-- A group with at least two protected events is left alone, and only such a group is; else the event
-- that survives is the sole protected one or, where none is protected, one of the group than which
-- none has a smaller id.
pub choose_canonical-cases :
    (event : Row) (siblings : List Row)
    → let group = event ∷ siblings in
      ((choose_canonical event siblings ≡ none) × (2 ≤ count_protected group))
      ⊎ ((c : Row) × (choose_canonical event siblings ≡ some c) × IsSole c group)
      ⊎ ((c : Row) × (choose_canonical event siblings ≡ some c)
          × IsOldest c group
          × All (λ (r : Row). is_protected r ≡ false) group)
unfolding choose_canonical
choose_canonical-cases event siblings = by_protected (protected_events (event ∷ siblings)) refl
  where
    by_protected :
        (ps : List Row)
        → protected_events (event ∷ siblings) ≡ ps
        → ((sole_or (protected_events (event ∷ siblings)) (oldest event siblings) ≡ none)
            × (2 ≤ count_protected (event ∷ siblings)))
          ⊎ ((c : Row) × (sole_or (protected_events (event ∷ siblings)) (oldest event siblings)
                ≡ some c)
              × IsSole c (event ∷ siblings))
          ⊎ ((c : Row) × (sole_or (protected_events (event ∷ siblings)) (oldest event siblings)
                ≡ some c)
              × IsOldest c (event ∷ siblings)
              × All (λ (r : Row). is_protected r ≡ false) (event ∷ siblings))
    by_protected [] e = inr (
        inr (
          oldest event siblings,
          rw e refl,
          oldest-IsOldest event siblings,
          protected_events-none (event ∷ siblings) e,
        ))
    by_protected (p ∷ []) e = inr (inl (p, rw e refl, protected_events-one (event ∷ siblings) p e))
    by_protected (p ∷ q ∷ ps) e =
        inl (rw e refl, omega (arith, protected_events-count (event ∷ siblings), ap length e))
