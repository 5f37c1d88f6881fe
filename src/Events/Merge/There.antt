-- ===== src/Events/Merge/There.antt =====
-- The rows of a group are rows of the store.
use cs_server.Prelude.{
  ap, ◌||◌, refl, String, ◌≡◌, subst, inl, inr, Bool, true, false, Bool-cases, some, List, [], ◌∷◌,
  str_eq, arith, eq_refl, if◌then◌else◌,
}
use cs_server.Events.Row.{Row, Value, get, value_eq}
use cs_server.Events.Identity.{TextTables}
use cs_server.Events.Posts.{event_id_of, is_protected}
use cs_server.Events.Merge.{id_lt, oldest, protected_events, sole_or, choose_canonical}
use cs_server.Events.Merge.Store.{
  Source, viewed, find_event, insert_row, list_events, listed_before, is_sibling, siblings_of,
}
use cs_server.Events.Merge.Linked.{exists}

abbrev pub Every : List Row → List Row → Type 0
Every rows [] = Unit
Every rows (x ∷ xs) = (exists (event_id_of x) rows ≡ true) × Every rows xs

Every-weaken : (r : Row) (rows xs : List Row) → Every rows xs → Every (r ∷ rows) xs
Every-weaken r rows [] h = tt
Every-weaken r rows (x ∷ xs) h = (ground (arith, h.0), Every-weaken r rows xs h.1)

pub Every-self : (rows : List Row) → Every rows rows
Every-self [] = tt
Every-self (r ∷ rs) =
    (ground (arith, eq_refl (event_id_of r)), Every-weaken r rs rs (Every-self rs))

-- The view of a row is of the same event.
pub viewed-Every :
    (sources : List Source) (rows xs : List Row) → Every rows xs → Every rows (viewed sources xs)
viewed-Every sources rows [] h = tt
viewed-Every sources rows (x ∷ xs) h = (h.0, viewed-Every sources rows xs h.1)

pub exists-viewed :
    (id : String) (sources : List Source) (rows : List Row)
    → exists id (viewed sources rows) ≡ exists id rows
exists-viewed id sources [] = refl
exists-viewed id sources (r ∷ rs) =
    ap (λ b. str_eq (event_id_of r) id || b) (exists-viewed id sources rs)

if-Every :
    (rows : List Row) (b : Bool) (xs ys : List Row)
    → Every rows xs
    → Every rows ys
    → Every rows (if b then xs else ys)
if-Every rows true xs ys h g = h
if-Every rows false xs ys h g = g

insert_row-Every :
    (rows : List Row) (r : Row) (xs : List Row)
    → exists (event_id_of r) rows ≡ true
    → Every rows xs
    → Every rows (insert_row r xs)
unfolding insert_row
insert_row-Every rows r [] e h = (e, tt)
insert_row-Every rows r (x ∷ xs) e h =
    if-Every rows (listed_before r x) _ _ (e, h) (h.0, insert_row-Every rows r xs e h.1)

pub list_events-Every :
    (rows : List Row) (venue : Value) (xs : List Row)
    → Every rows xs
    → Every rows (list_events venue xs)
unfolding list_events
list_events-Every rows venue [] h = tt
list_events-Every rows venue (x ∷ xs) h =
    let rest = list_events-Every rows venue xs h.1 in
    if-Every rows (value_eq (get x "venue_id") venue) _ _
      (insert_row-Every rows x (list_events venue xs) h.0 rest) rest

pub siblings_of-Every :
    (u : TextTables) (rows : List Row) (event : Row) (absorbed : List String) (xs : List Row)
    → Every rows xs
    → Every rows (siblings_of u event absorbed xs)
unfolding siblings_of
siblings_of-Every u rows event absorbed [] h = tt
siblings_of-Every u rows event absorbed (x ∷ xs) h =
    let rest = siblings_of-Every u rows event absorbed xs h.1 in
    if-Every rows (is_sibling u event absorbed x) _ _ (h.0, rest) rest

oldest-There :
    (rows : List Row) (e : Row) (xs : List Row)
    → exists (event_id_of e) rows ≡ true
    → Every rows xs
    → exists (event_id_of (oldest e xs)) rows ≡ true
unfolding oldest
oldest-There rows e [] h g = h
oldest-There rows e (x ∷ xs) h g = elim (Bool-cases (id_lt x e)) [
  | inl b ↦ rw b (oldest-There rows x xs g.0 g.1)
  | inr b ↦ rw b (oldest-There rows e xs h g.1)
]

protected_events-Every : (rows xs : List Row) → Every rows xs → Every rows (protected_events xs)
unfolding protected_events
protected_events-Every rows [] h = tt
protected_events-Every rows (x ∷ xs) h =
    let rest = protected_events-Every rows xs h.1 in
    if-Every rows (is_protected x) _ _ (h.0, rest) rest

sole_or-There :
    (rows ps : List Row) (old c : Row)
    → sole_or ps old ≡ some c
    → Every rows ps
    → exists (event_id_of old) rows ≡ true
    → exists (event_id_of c) rows ≡ true
sole_or-There rows [] old c e h g =
    let same : old ≡ c = cc e in subst (λ x. exists (event_id_of x) rows ≡ true) same g
sole_or-There rows (p ∷ []) old c e h g =
    let same : p ≡ c = cc e in subst (λ x. exists (event_id_of x) rows ≡ true) same h.0
sole_or-There rows (p ∷ q ∷ ps) old c e h g = absurd (cc)

pub choose_canonical-There :
    (rows : List Row) (event : Row) (siblings : List Row) (c : Row)
    → choose_canonical event siblings ≡ some c
    → exists (event_id_of event) rows ≡ true
    → Every rows siblings
    → exists (event_id_of c) rows ≡ true
unfolding choose_canonical
choose_canonical-There rows event siblings c e h g =
    sole_or-There rows (protected_events (event ∷ siblings)) (oldest event siblings) c e
      (protected_events-Every rows (event ∷ siblings) (h, g)) (oldest-There rows event siblings h g)

pub find_event-There :
    (id : String) (rows : List Row) (r : Row)
    → find_event id rows ≡ some r
    → exists (event_id_of r) rows ≡ true
unfolding find_event
find_event-There id [] r e = absurd (cc)
find_event-There id (x ∷ xs) r e = elim (Bool-cases (str_eq (event_id_of x) id)) [
  | inl b ↦
      let same : x ≡ r = cc (rw b at e) in
      subst (λ y. exists (event_id_of y) (x ∷ xs) ≡ true) same
        (ground (arith, eq_refl (event_id_of x)))
  | inr b ↦ ground (arith, find_event-There id xs r (rw b at e))
]
