-- ===== src/Jobs/Registry/Bounded.antt =====
-- What is published is the ring, and the ring is bounded.
use cs_server.Prelude.{
  ℕ, ◌≤◌, String, ◌≡◌, refl, inl, inr, false, ◌&&◌, Bool-cases, Option, none, some, List, [], ◌∷◌,
  ◌++◌, arith, eq_iff, ltb, str_eq, length, if◌then◌else◌,
}
use cs_server.Jobs.Registry.{
  Run, Gauge, set_label, remove_label, Ring, Registry, find_run, set_status, evict, register_found,
  register,
}

-- The value of a label set by the ring.
abbrev pub shown : String → String → List Run → Option ℕ
shown a b [] = none
shown a b (r ∷ rs) = if str_eq r.id a && str_eq r.status b then some r.started else shown a b rs

abbrev pub Distinct : List Run → Type 0
Distinct [] = Unit
Distinct (r ∷ rs) = (find_run r.id rs ≡ none) × Distinct rs

shown-absent : (a b : String) (rs : List Run) → find_run a rs ≡ none → shown a b rs ≡ none
unfolding find_run
shown-absent a b [] h = refl
shown-absent a b (r ∷ rs) h = elim (Bool-cases (str_eq r.id a)) [
  | inl e ↦ absurd (cc (rw e at h))
  | inr e ↦ rw e (shown-absent a b rs (rw e at h))
]

-- A run for each id, and exactly these published.
pub record IsPublished (rs : List Run) (g : Gauge) : Type 0 where
  pub distinct : Distinct rs
  pub exact : (a b : String) → g a b ≡ shown a b rs

tail-IsPublished :
    (r : Run) (rs : List Run) (g : Gauge)
    → IsPublished (r ∷ rs) g
    → IsPublished rs (remove_label r.id r.status g)
tail-IsPublished r rs g h = record {
  distinct = h.distinct.1;
  exact = λ a b. ground (arith, h.exact a b, shown-absent r.id b rs h.distinct.0, eq_iff r.id a);
}

evict-IsPublished :
    (size : ℕ) (rs : List Run) (g : Gauge)
    → IsPublished rs g
    → IsPublished (evict size rs g).runs (evict size rs g).gauge
      × (length (evict size rs g).runs ≤ size)
unfolding evict
evict-IsPublished size [] g h = (h, omega arith)
evict-IsPublished size (r ∷ rs) g h = elim (Bool-cases (ltb size (length (r ∷ rs)))) [
  | inl e ↦
      rw e (evict-IsPublished size rs (remove_label r.id r.status g) (tail-IsPublished r rs g h))
  | inr e ↦ rw e (h, ground arith)
]

find_run-append :
    (id : String) (n : Run) (rs : List Run)
    → find_run id rs ≡ none
    → str_eq n.id id ≡ false
    → find_run id (rs ++ (n ∷ [])) ≡ none
unfolding find_run
find_run-append id n [] h d = rw d refl
find_run-append id n (r ∷ rs) h d = elim (Bool-cases (str_eq r.id id)) [
  | inl e ↦ absurd (cc (rw e at h))
  | inr e ↦ rw e (find_run-append id n rs (rw e at h) d)
]

append-Distinct :
    (n : Run) (rs : List Run) → Distinct rs → find_run n.id rs ≡ none → Distinct (rs ++ (n ∷ []))
unfolding find_run
append-Distinct n [] d h = (refl, tt)
append-Distinct n (r ∷ rs) d h = elim (Bool-cases (str_eq r.id n.id)) [
  | inl e ↦ absurd (cc (rw e at h))
  | inr e ↦ (
    find_run-append r.id n rs d.0 (ground (arith, eq_iff r.id n.id, eq_iff n.id r.id)),
    append-Distinct n rs d.1 (rw e at h),
  )
]

shown-append :
    (a b : String) (n : Run) (rs : List Run)
    → find_run n.id rs ≡ none
    → shown a b (rs ++ (n ∷ []))
      ≡ (if str_eq n.id a && str_eq n.status b then some n.started else shown a b rs)
unfolding find_run
shown-append a b n [] h = refl
shown-append a b n (r ∷ rs) h = elim (Bool-cases (str_eq r.id n.id)) [
  | inl e ↦ absurd (cc (rw e at h))
  | inr e ↦
      ground
        (arith, shown-append a b n rs (rw e at h), eq_iff r.id n.id, eq_iff r.id a, eq_iff n.id a)
]

find_run-set_status :
    (a id status : String) (rs : List Run)
    → find_run a rs ≡ none
    → find_run a (set_status id status rs) ≡ none
unfolding find_run set_status
find_run-set_status a id status [] h = refl
find_run-set_status a id status (r ∷ rs) h = elim (Bool-cases (str_eq r.id a)) [
  | inl e ↦ absurd (cc (rw e at h))
  | inr e ↦ elim (Bool-cases (str_eq r.id id)) [
    | inl f ↦ rw (f, e) (rw e at h)
    | inr f ↦ rw (f, e) (find_run-set_status a id status rs (rw e at h))
  ]
]

set_status-Distinct :
    (id status : String) (rs : List Run) → Distinct rs → Distinct (set_status id status rs)
unfolding set_status
set_status-Distinct id status [] d = tt
set_status-Distinct id status (r ∷ rs) d = elim (Bool-cases (str_eq r.id id)) [
  | inl e ↦ rw e d
  | inr e ↦ rw e (find_run-set_status r.id id status rs d.0, set_status-Distinct id status rs d.1)
]

shown-set_status :
    (a b id status : String) (rs : List Run) (old : Run)
    → Distinct rs
    → find_run id rs ≡ some old
    → shown a b (set_status id status rs)
      ≡ set_label id status old.started (remove_label id old.status (λ x y. shown x y rs)) a b
unfolding find_run set_status
shown-set_status a b id status [] old d h = absurd (cc)
shown-set_status a b id status (r ∷ rs) old d h = elim (Bool-cases (str_eq r.id id)) [
  | inl e ↦
      let same : r ≡ old = cc (rw e at h) in
      rw (← same, e)
        (ground (arith, shown-absent r.id b rs d.0, eq_iff r.id id, eq_iff r.id a, eq_iff id a))
  | inr e ↦ rw e (
      ground (
        arith,
        shown-set_status a b id status rs old d.1 (rw e at h),
        eq_iff r.id id,
        eq_iff r.id a,
        eq_iff id a,
      ))
]

length-set_status :
    (id status : String) (rs : List Run) → length (set_status id status rs) ≡ length rs
unfolding set_status
length-set_status id status [] = refl
length-set_status id status (r ∷ rs) = elim (Bool-cases (str_eq r.id id)) [
  | inl e ↦ rw e refl
  | inr e ↦ rw e (omega (arith, length-set_status id status rs))
]

-- A bounded ring that is what is published.
pub record IsRing (size : ℕ) (ring : Ring) : Type 0 where
  pub published : IsPublished ring.runs ring.gauge
  pub bounded : length ring.runs ≤ size

register_found-IsRing :
    (o : Option Run) (size : ℕ) (id status : String) (started : ℕ) (ring : Ring)
    → find_run id ring.runs ≡ o
    → IsRing size ring
    → IsRing size (register_found o size id status started ring)
register_found-IsRing (some old) size id status started ring h g = record {
  published = record {
    distinct = set_status-Distinct id status ring.runs g.published.distinct;
    exact = λ a b.
        rw (shown-set_status a b id status ring.runs old g.published.distinct h)
          (ground (arith, g.published.exact a b));
  };
  bounded = rw (length-set_status id status ring.runs) g.bounded;
}
register_found-IsRing none size id status started ring h g =
    let new : Run = record { id = id; status = status; started = started } in
    let (published, bounded) =
      evict-IsPublished size (ring.runs ++ (new ∷ [])) (set_label id status started ring.gauge)
        (record {
          distinct = append-Distinct new ring.runs g.published.distinct h;
          exact = λ a b. rw (shown-append a b new ring.runs h, g.published.exact a b) refl;
        }) in
    record { published = published; bounded = bounded }

-- Where for each pipeline the published label sets are exactly the runs of its ring, each run under
-- one status, and no ring is longer than the size: after a run is registered, new or with a changed
-- status, it is so for each pipeline again.
pub register-IsRing :
    (pipeline id status : String) (started : ℕ) (s : Registry)
    → ((p : String) → IsRing s.size (s.rings p))
    → (p : String) → IsRing s.size ((register pipeline id status started s).rings p)
unfolding register
register-IsRing pipeline id status started s h p = elim (Bool-cases (str_eq pipeline p)) [
  | inl e ↦ rw e (
      register_found-IsRing (find_run id (s.rings pipeline).runs) s.size id status started
        (s.rings pipeline) refl (h pipeline))
  | inr e ↦ rw e (h p)
]
