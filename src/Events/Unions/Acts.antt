-- ===== src/Events/Unions/Acts.antt =====
-- No act is lost or invented when attractions are folded together.
use cs_server.Prelude.{
  ℕ, String, ◌≡◌, refl, sym, ap, ◌∙◌, inl, inr, Bool, true, false, ◌||◌, Option, none, some, List,
  [], ◌∷◌, ◌++◌, map, arith, Bool-cases,
}
use cs_server.Events.Row.{Attraction}
use cs_server.Events.Identity.{TextTables, points_eq}
use cs_server.Events.Unions.{
  Slot, absorb, extend, change_first, norm_of, new_slot, fallback, exact, or_else, place, place_all,
  act_of, union_attractions,
}

points_eq-eq : (as' bs : List ℕ) → points_eq as' bs ≡ true → as' ≡ bs
points_eq-eq [] [] h = refl
points_eq-eq [] (b ∷ bs) h = cc
points_eq-eq (a ∷ as') [] h = cc
points_eq-eq (a ∷ as') (b ∷ bs) h = grind (arith, points_eq-eq as' bs)

-- Some slot has the normalised name.
abbrev has : List ℕ → List Slot → Bool
has n [] = false
has n (s ∷ ss) = points_eq s.norm n || has n ss

has-append : (n : List ℕ) (ss ts : List Slot) → has n (ss ++ ts) ≡ (has n ss || has n ts)
has-append n [] ts = refl
has-append n (s ∷ ss) ts = ground (arith, has-append n ss ts)

-- Each slot's normalised name is that of its name.
abbrev AllNormed : TextTables → List Slot → Type 0
AllNormed u [] = Unit
AllNormed u (s ∷ ss) = (s.norm ≡ norm_of u (act_of u s)) × AllNormed u ss

AllNormed-append :
    (u : TextTables) (ss : List Slot) (t : Slot)
    → AllNormed u ss
    → t.norm ≡ norm_of u (act_of u t)
    → AllNormed u (ss ++ t ∷ [])
AllNormed-append u [] t h k = (k, tt)
AllNormed-append u (s ∷ ss) t (e, h) k = (e, AllNormed-append u ss t h k)

-- What one act does to the slots: the names are those before and the act's.
record Placed (u : TextTables) (m : List ℕ) (before after : List Slot) : Type 0 where
  names : (n : List ℕ) → has n after ≡ (has n before || points_eq m n)
  normed : AllNormed u before → AllNormed u after

abbrev PlacedIf : TextTables → List ℕ → List Slot → Option (List Slot) → Type 0
PlacedIf u m before none = Unit
PlacedIf u m before (some after) = Placed u m before after

extend-PlacedIf :
    (u : TextTables) (m : List ℕ) (s : Slot) (ss : List Slot) (o : Option (List Slot))
    → PlacedIf u m ss o
    → PlacedIf u m (s ∷ ss) (extend s o)
extend-PlacedIf u m s ss none h = tt
extend-PlacedIf u m s ss (some rs) h = record {
  names = λ n. ground (arith, h.names n);
  normed = λ k. (k.0, h.normed k.1);
}

absorb-Placed :
    (u : TextTables) (a : Attraction) (s : Slot) (ss : List Slot)
    → points_eq s.norm (norm_of u a) ≡ true
    → Placed u (norm_of u a) (s ∷ ss) (absorb a s ∷ ss)
unfolding absorb
absorb-Placed u a s ss h = record {
  names = λ n. rw (sym (points_eq-eq s.norm (norm_of u a) h)) (ground arith);
  normed = λ k. k;
}

change_first-PlacedIf :
    (u : TextTables) (a : Attraction) (test : Slot → Bool)
    → ((s : Slot) → test s ≡ true → points_eq s.norm (norm_of u a) ≡ true)
    → (ss : List Slot) → PlacedIf u (norm_of u a) ss (change_first test (absorb a) ss)
unfolding change_first
change_first-PlacedIf u a test imply [] = tt
change_first-PlacedIf u a test imply (s ∷ ss) = elim (Bool-cases (test s)) [
  | inl here ↦ rw here (absorb-Placed u a s ss (imply s here))
  | inr on ↦ rw on (
      extend-PlacedIf u (norm_of u a) s ss (change_first test (absorb a) ss)
        (change_first-PlacedIf u a test imply ss))
]

or_else-Placed :
    (u : TextTables) (m : List ℕ) (before d : List Slot) (o : Option (List Slot))
    → PlacedIf u m before o
    → Placed u m before d
    → Placed u m before (or_else u o d)
or_else-Placed u m before d none h k = k
or_else-Placed u m before d (some after) h k = h

exact_named :
    (u : TextTables) (norm : List ℕ) (stage : Option String) (s : Slot)
    → exact u norm stage s ≡ true
    → points_eq s.norm norm ≡ true
exact_named u norm stage s h = ground arith

fallback_named :
    (u : TextTables) (norm : List ℕ) (stage : Option String) (s : Slot)
    → fallback u norm stage s ≡ true
    → points_eq s.norm norm ≡ true
fallback_named u norm none s h = h
fallback_named u norm (some stage) s h = ground arith

new_slot-Placed :
    (u : TextTables) (a : Attraction) (ss : List Slot)
    → Placed u (norm_of u a) ss (ss ++ new_slot u a ∷ [])
unfolding new_slot
new_slot-Placed u a ss = record {
  names = λ n. ground (arith, has-append n ss (new_slot u a ∷ []));
  normed = λ k. AllNormed-append u ss (new_slot u a) k refl;
}

place-Placed :
    (u : TextTables) (ss : List Slot) (a : Attraction) → Placed u (norm_of u a) ss (place u ss a)
unfolding place
place-Placed u ss a =
    or_else-Placed u (norm_of u a) ss _ (change_first (exact u (norm_of u a) a.stage) (absorb a) ss)
      (change_first-PlacedIf u a (exact u (norm_of u a) a.stage)
        (exact_named u (norm_of u a) a.stage) ss)
      (or_else-Placed u (norm_of u a) ss _
        (change_first (fallback u (norm_of u a) a.stage) (absorb a) ss)
        (change_first-PlacedIf u a (fallback u (norm_of u a) a.stage)
          (fallback_named u (norm_of u a) a.stage) ss)
        (new_slot-Placed u a ss))

-- Some act has the normalised name.
abbrev pub names : TextTables → List ℕ → List Attraction → Bool
names u n [] = false
names u n (a ∷ as') = points_eq (norm_of u a) n || names u n as'

place_all-names :
    (u : TextTables) (n : List ℕ) (ss : List Slot) (as' : List Attraction)
    → has n (place_all u ss as') ≡ (has n ss || names u n as')
unfolding place_all
place_all-names u n ss [] = ground arith
place_all-names u n ss (a ∷ as') =
    ground (arith, place_all-names u n (place u ss a) as', (place-Placed u ss a).names n)

place_all-AllNormed :
    (u : TextTables) (ss : List Slot) (as' : List Attraction)
    → AllNormed u ss
    → AllNormed u (place_all u ss as')
unfolding place_all
place_all-AllNormed u ss [] h = h
place_all-AllNormed u ss (a ∷ as') h =
    place_all-AllNormed u (place u ss a) as' ((place-Placed u ss a).normed h)

names-slots :
    (u : TextTables) (n : List ℕ) (ss : List Slot)
    → AllNormed u ss
    → names u n (map (act_of u) ss) ≡ has n ss
names-slots u n [] h = refl
names-slots u n (s ∷ ss) (e, h) = rw e (ground (arith, names-slots u n ss h))

-- An act stands in the union of two lists of attractions, by its normalised name, exactly where it stands
-- in one of them: folding posts together never loses an act and never invents one.
pub union_attractions-names :
    (u : TextTables) (n : List ℕ) (a b : List Attraction)
    → names u n (union_attractions u a b) ≡ (names u n a || names u n b)
unfolding union_attractions
union_attractions-names u n a b =
    names-slots u n (place_all u (place_all u [] a) b)
      (place_all-AllNormed u (place_all u [] a) b (place_all-AllNormed u [] a tt))
    ∙ place_all-names u n (place_all u [] a) b
    ∙ ap (λ x. x || names u n b) (place_all-names u n [] a)
