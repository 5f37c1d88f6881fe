-- ===== src/Instagram/Run/Requested.antt =====
-- Which venues a run looks at.
use cs_server.Prelude.{
  ℕ, ◌+◌, ◌≡◌, refl, Bool, false, not, ◌&&◌, ◌||◌, List, [], ◌∷◌, ◌++◌, length, Bool-cases, inl,
  inr, arith,
}
use cs_server.Python.Regex.{Text, Unicode}
use cs_server.Python.Text.{is_empty, text_eq, is_one_of, strip}
use cs_server.Python.Text.Equality.{text_eq_self, text_eq_eq, is_one_of-append}
use cs_server.Instagram.Run.{
  VenueIds, items_of, take_id, take_ids, parse_venue_ids, known_ids, unknown_ids, select,
}

-- No text twice, and none that is empty.
abbrev pub AreIds : List Text → Type 0
AreIds [] = Unit
AreIds (t ∷ ts) = (is_empty t ≡ false) × ((is_one_of t ts ≡ false) × AreIds ts)

AreIds-append :
    (ts : List Text) (v : Text)
    → AreIds ts
    → is_empty v ≡ false
    → is_one_of v ts ≡ false
    → AreIds (ts ++ v ∷ [])
unfolding is_one_of
AreIds-append [] v h full new = (full, (refl, tt))
AreIds-append (t ∷ ts) v (a, (b, h)) full new = (
  a,
  (
    ground (arith, is_one_of-append t ts (v ∷ []), text_eq_self t, text_eq_eq v t),
    AreIds-append ts v h full (ground arith),
  ),
)

take_id-AreIds : (v : Text) (out : List Text) → AreIds out → AreIds (take_id v out)
take_id-AreIds v out h = elim (Bool-cases (is_empty v || is_one_of v out)) [
  | inl e ↦ rw e h
  | inr e ↦ rw e (AreIds-append out v h (ground arith) (ground arith))
]

take_ids-AreIds : (u : Unicode) (ts out : List Text) → AreIds out → AreIds (take_ids u ts out)
unfolding take_ids
take_ids-AreIds u [] out h = h
take_ids-AreIds u (t ∷ ts) out h =
    take_ids-AreIds u ts (take_id (strip u.is_space t) out)
      (take_id-AreIds (strip u.is_space t) out h)

-- The items without the blanks around them.
unfoldable pub stripped : Unicode → List Text → List Text
stripped u [] = []
stripped u (t ∷ ts) = strip u.is_space t ∷ stripped u ts

is_one_of-take_id :
    (w v : Text) (out : List Text)
    → is_empty w ≡ false
    → is_one_of w (take_id v out) ≡ (is_one_of w out || text_eq v w)
unfolding is_one_of
is_one_of-take_id w v out full = elim (Bool-cases (is_empty v || is_one_of v out)) [
  | inl e ↦ rw e (ground (arith, text_eq_eq v w))
  | inr e ↦ rw e (ground (arith, is_one_of-append w out (v ∷ [])))
]

is_one_of-take_ids :
    (u : Unicode) (w : Text) (ts out : List Text)
    → is_empty w ≡ false
    → is_one_of w (take_ids u ts out) ≡ (is_one_of w out || is_one_of w (stripped u ts))
unfolding take_ids stripped is_one_of
is_one_of-take_ids u w [] out full = ground arith
is_one_of-take_ids u w (t ∷ ts) out full =
    let v = strip u.is_space t in
    ground (arith, is_one_of-take_ids u w ts (take_id v out) full, is_one_of-take_id w v out full)

-- An empty text is not among ids.
AreIds-full : (ts : List Text) → AreIds ts → is_one_of [] ts ≡ false
unfolding is_one_of text_eq
AreIds-full [] h = refl
AreIds-full ([] ∷ ts) (a, (b, h)) = absurd (cc a)
AreIds-full ((c ∷ cs) ∷ ts) (a, (b, h)) = AreIds-full ts h

-- The ids that are parsed, of a list or of a text with commas, are none twice and none empty, and they
-- are exactly the items that are not empty once the blanks around them are gone.
pub parse_venue_ids-exact :
    (u : Unicode) (raw : VenueIds) (w : Text)
    → AreIds (parse_venue_ids u raw)
      × (is_one_of w (parse_venue_ids u raw)
          ≡ (not (is_empty w) && is_one_of w (stripped u (items_of raw))))
unfolding parse_venue_ids is_one_of
parse_venue_ids-exact u raw [] =
    let ids = take_ids-AreIds u (items_of raw) [] tt in (ids, AreIds-full _ ids)
parse_venue_ids-exact u raw (c ∷ cs) =
    (take_ids-AreIds u (items_of raw) [] tt, is_one_of-take_ids u (c ∷ cs) (items_of raw) [] refl)

known-length :
    (catalogue vs : List Text)
    → length (known_ids catalogue vs) + length (unknown_ids catalogue vs) ≡ length vs
unfolding known_ids unknown_ids
known-length catalogue [] = refl
known-length catalogue (v ∷ vs) = ground (arith, known-length catalogue vs)

is_one_of-known_ids :
    (w : Text) (catalogue vs : List Text)
    → is_one_of w (known_ids catalogue vs) ≡ (is_one_of w vs && is_one_of w catalogue)
unfolding known_ids is_one_of
is_one_of-known_ids w catalogue [] = refl
is_one_of-known_ids w catalogue (v ∷ vs) = elim (Bool-cases (is_one_of v catalogue)) [
  | inl e ↦ ground (arith, is_one_of-known_ids w catalogue vs, text_eq_eq v w)
  | inr e ↦ ground (arith, is_one_of-known_ids w catalogue vs, text_eq_eq v w)
]

-- How many venues were asked for: all of the catalogue where none is named.
abbrev pub asked : List Text → List Text → ℕ
asked catalogue [] = length catalogue
asked catalogue (v ∷ vs) = length (v ∷ vs)

pub select-length :
    (catalogue ids : List Text)
    → length (select catalogue ids).0 + length (select catalogue ids).1 ≡ asked catalogue ids
unfolding select
select-length catalogue [] = omega arith
select-length catalogue (v ∷ vs) = known-length catalogue (v ∷ vs)

-- Whether a venue is one that a run may look at.
abbrev pub is_asked : List Text → List Text → Text → Bool
is_asked catalogue [] j = is_one_of j catalogue
is_asked catalogue (v ∷ vs) j = is_one_of j (v ∷ vs) && is_one_of j catalogue

pub is_one_of-select :
    (catalogue ids : List Text) (j : Text)
    → is_one_of j (select catalogue ids).0 ≡ is_asked catalogue ids j
unfolding select
is_one_of-select catalogue [] j = refl
is_one_of-select catalogue (v ∷ vs) j = is_one_of-known_ids j catalogue (v ∷ vs)
