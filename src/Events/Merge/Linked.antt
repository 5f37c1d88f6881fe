-- ===== src/Events/Merge/Linked.antt =====
-- A merge deletes no row that a source refers to, and loses no source.
use cs_server.Prelude.{
  String, ◌≡◌, refl, ap, inl, inr, Bool, true, false, ◌&&◌, ◌||◌, Bool-cases, some, List, [], ◌∷◌,
  str_eq, elem, arith, eq_iff,
}
use cs_server.Events.Row.{Row}
use cs_server.Events.Posts.{event_id_of}
use cs_server.Events.Merge.Store.{
  Source, find_event, update_rows, reattach, without, refers, drop_rows,
}

abbrev pub exists : String → List Row → Bool
exists id [] = false
exists id (r ∷ rs) = str_eq (event_id_of r) id || exists id rs

abbrev pub all_linked : List Source → List Row → Bool
all_linked [] rows = true
all_linked (x ∷ xs) rows = exists x.event rows && all_linked xs rows

abbrev pub ids_of : List Source → List String
ids_of [] = []
ids_of (x ∷ xs) = x.id ∷ ids_of xs

pub exists-update_rows :
    (j id : String) (fields : Row) (rows : List Row)
    → exists j (update_rows id fields rows) ≡ exists j rows
exists-update_rows j id fields [] = refl
exists-update_rows j id fields (r ∷ rs) =
    let rest = exists-update_rows j id fields rs in
    elim (Bool-cases (str_eq (event_id_of r) id)) [
      | inl b ↦ rw (b, rest) refl
      | inr b ↦ rw (b, rest) refl
    ]

pub exists-find_event :
    (id : String) (rows : List Row)
    → exists id rows ≡ true
    → (r : Row) × (find_event id rows ≡ some r)
unfolding find_event
exists-find_event id [] h = absurd (cc)
exists-find_event id (r ∷ rs) h = elim (Bool-cases (str_eq (event_id_of r) id)) [
  | inl b ↦ (r, rw b refl)
  | inr b ↦ rw b (exists-find_event id rs (rw b at h))
]

pub exists-drop_rows :
    (j o : String) (rows : List Row)
    → str_eq o j ≡ false
    → exists j (drop_rows o rows) ≡ exists j rows
exists-drop_rows j o [] h = refl
exists-drop_rows j o (r ∷ rs) h = ground (
  arith,
  exists-drop_rows j o rs h,
  eq_iff (event_id_of r) o,
  eq_iff o j,
  eq_iff (event_id_of r) j,
)

pub refers-reattach :
    (o c : String) (xs : List Source) → str_eq o c ≡ false → refers o (reattach o c xs) ≡ false
refers-reattach o c [] h = refl
refers-reattach o c (x ∷ xs) h =
    ground (arith, refers-reattach o c xs h, eq_iff x.event o, eq_iff o c, eq_iff c o)

pub elem-without : (o : String) (xs : List String) → elem o (without o xs) ≡ false
elem-without o [] = refl
elem-without o (x ∷ xs) = ground (arith, elem-without o xs, eq_iff x o, eq_iff o x)

pub ids_of-reattach : (o c : String) (xs : List Source) → ids_of (reattach o c xs) ≡ ids_of xs
ids_of-reattach o c [] = refl
ids_of-reattach o c (x ∷ xs) = ap (λ l. x.id ∷ l) (ids_of-reattach o c xs)

pub all_linked-reattach :
    (o c : String) (xs : List Source) (rows : List Row)
    → str_eq o c ≡ false
    → exists c rows ≡ true
    → all_linked xs rows ≡ true
    → all_linked (reattach o c xs) (drop_rows o rows) ≡ true
all_linked-reattach o c [] rows h e l = refl
all_linked-reattach o c (x ∷ xs) rows h e l =
    let rest = all_linked-reattach o c xs rows h e (ground arith) in
    elim (Bool-cases (str_eq x.event o)) [
      | inl b ↦ rw (b, exists-drop_rows c o rows h, e) rest
      | inr b ↦
          let apart : str_eq o x.event ≡ false =
            ground (arith, eq_iff x.event o, eq_iff o x.event) in
          let there : exists x.event rows ≡ true = ground arith in
          rw (b, exists-drop_rows x.event o rows apart, there) rest
    ]

pub all_linked-same :
    (xs : List Source) (rows more : List Row)
    → ((j : String) → exists j more ≡ exists j rows)
    → all_linked xs more ≡ all_linked xs rows
all_linked-same [] rows more h = refl
all_linked-same (x ∷ xs) rows more h = rw (h x.event, all_linked-same xs rows more h) refl
