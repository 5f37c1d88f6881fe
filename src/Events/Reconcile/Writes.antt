-- ===== src/Events/Reconcile/Writes.antt =====
-- A property of every write of one run, from the three kinds of write.
use cs_server.Prelude.{
  ℕ, ◌+◌, String, ◌≡◌, refl, ◌⊎◌, inl, inr, not, ◌&&◌, Option, none, some, List, [], ◌∷◌, ◌++◌,
  arith, elem, Bool-cases, Option-cases,
}
use cs_server.Events.Row.{Row}
use cs_server.Events.Identity.{TextTables}
use cs_server.Events.Posts.{
  Write, Caller, Run, Matching, Pending, event_id_of, find_by_key, key_of, is_protected,
  orphaned_protected, begin, plausibly_same_event,
}
use cs_server.Events.Reconcile.{
  existing_writes, new_writes, persist_existing, persist_new, match_one, match_step, match_all,
  pair_up, persist_pending, retire, retire_all, paired, reconcile_post_events,
}

abbrev pub All {ℓ κ} : {A : Type ℓ} → (A → Type κ) → List A → Type κ
All P [] = Unit
All P (x ∷ xs) = P x × All P xs

-- The row is one of the rows.
abbrev pub In : Row → List Row → Type 0
In r [] = ⊥
In r (x ∷ xs) = (r ≡ x) ⊎ In r xs

All-append {ℓ κ} :
    {A : Type ℓ} (P : A → Type κ) (xs ys : List A) → All P xs → All P ys → All P (xs ++ ys)
All-append P [] ys h k = k
All-append P (x ∷ xs) ys h k = (h.0, All-append P xs ys h.1 k)

find_by_key-In :
    (key : String) (rows : List Row) (r : Row) → find_by_key key rows ≡ some r → In r rows
unfolding find_by_key
find_by_key-In key [] r h = cc
find_by_key-In key (x ∷ xs) r h = elim (Option-cases (find_by_key key xs)) [
  | inr (y, e) ↦ inr (find_by_key-In key xs r (rw e (ground (arith, e))))
  | inl e ↦ inl (ground (arith, e))
]

-- Each row of the list is one of the rows.
abbrev pub Among : List Row → List Row → Type 0
Among rows = All (λ r. In r rows)

orphaned_protected-Among :
    (handled : List String) (all rows : List Row)
    → Among all rows
    → Among all (orphaned_protected handled rows)
unfolding orphaned_protected
orphaned_protected-Among handled all [] h = tt
orphaned_protected-Among handled all (r ∷ rs) h =
    elim (Bool-cases (not (elem (event_id_of r) handled) && is_protected r)) [
      | inl kept ↦ rw kept (h.0, orphaned_protected-Among handled all rs h.1)
      | inr left ↦ rw left (orphaned_protected-Among handled all rs h.1)
    ]

-- The property from the three kinds of write: those for a row that is there, those for a new row, and
-- those for a row that no event was found for.
module _ {Hook : Type 0} (u : TextTables) (c : Caller Hook) (rows prepared : List Row)
    (P : Write Hook → Type 0)
    (of_existing : (e p : Row) (index : ℕ) (key : String)
      → In e rows
      → In p prepared
      → All P (existing_writes u c e p index key))
    (of_new : (p : Row) (index : ℕ) (key id : String)
      → In p prepared
      → All P (new_writes u c p index key id))
    (of_retired : (r : Row) → In r rows → All P (retire u c r)) where
  persist_existing-All :
      (e p : Row) (index : ℕ) (key : String) (r : Run Hook)
      → In e rows
      → In p prepared
      → All P r.writes
      → All P (persist_existing u c e p index key r).writes
  unfolding persist_existing
  persist_existing-All e p index key r he hp h =
      All-append P r.writes (existing_writes u c e p index key) h (of_existing e p index key he hp)

  abbrev IsKept : Matching Hook → Type 0
  IsKept m = All P m.current.writes × All (λ (q : Pending). In q.1 prepared) m.pending

  match_one-IsKept :
      (o : Option Row) (p : Row) (index : ℕ) (key : String) (m : Matching Hook)
      → ((e : Row) → o ≡ some e → In e rows)
      → In p prepared
      → IsKept m
      → IsKept (match_one u c o p index key m)
  unfolding match_one
  match_one-IsKept none p index key m ho hp k = (
    k.0,
    All-append (λ (q : Pending). In q.1 prepared) m.pending ((index, p, key) ∷ []) k.1 (hp, tt),
  )
  match_one-IsKept (some e) p index key m ho hp k =
      (persist_existing-All e p index key m.current (ho e refl) hp k.0, k.1)

  match_step-IsKept :
      (index : ℕ) (p : Row) (m : Matching Hook)
      → In p prepared
      → IsKept m
      → IsKept (match_step u c rows index p m)
  unfolding match_step
  match_step-IsKept index p m hp k = elim (Bool-cases (elem (key_of u p) m.seen)) [
    | inl old ↦ rw old k
    | inr new ↦ rw new (
        match_one-IsKept (find_by_key (key_of u p) rows) p index (key_of u p)
          (record m { seen = key_of u p ∷ m.seen }) (find_by_key-In (key_of u p) rows) hp k)
  ]

  match_all-IsKept :
      (index : ℕ) (ps : List Row) (m : Matching Hook)
      → Among prepared ps
      → IsKept m
      → IsKept (match_all u c rows index ps m)
  unfolding match_all
  match_all-IsKept index [] m hp k = k
  match_all-IsKept index (p ∷ ps) m hp k =
      match_all-IsKept (index + 1) ps (match_step u c rows index p m) hp.1
        (match_step-IsKept index p m hp.0 k)

  abbrev IsLeft : Run Hook × List Pending → Type 0
  IsLeft q = All P q.0.writes × All (λ (q : Pending). In q.1 prepared) q.1

  pair_up-IsLeft :
      (orphans : List Row) (pending : List Pending) (r : Run Hook)
      → Among rows orphans
      → IsLeft (r, pending)
      → IsLeft (pair_up u c orphans pending r)
  pair_up-IsLeft [] pending r ho k = k
  pair_up-IsLeft (o ∷ []) [] r ho k = k
  pair_up-IsLeft (o ∷ []) ((index, p, key) ∷ []) r ho k =
      elim (Bool-cases (plausibly_same_event u o p)) [
        | inl same ↦ rw same (persist_existing-All o p index key r ho.0 k.1.0 k.0, tt)
        | inr other ↦ rw other k
      ]
  pair_up-IsLeft (o ∷ []) (p ∷ q ∷ ps) r ho k = k
  pair_up-IsLeft (o ∷ o' ∷ os) pending r ho k = k

  persist_pending-All :
      (ps : List Pending) (r : Run Hook)
      → All (λ (q : Pending). In q.1 prepared) ps
      → All P r.writes
      → All P (persist_pending u c ps r).writes
  unfolding persist_pending persist_new
  persist_pending-All [] r hp h = h
  persist_pending-All ((index, p, key) ∷ ps) r hp h =
      persist_pending-All ps (persist_new u c p index key r) hp.1 (
        All-append P r.writes (new_writes u c p index key (c.fresh_id r.minted)) h
          (of_new p index key (c.fresh_id r.minted) hp.0))

  retire_all-All :
      (handled : List String) (rs : List Row) → Among rows rs → All P (retire_all u c handled rs)
  unfolding retire_all
  retire_all-All handled [] h = tt
  retire_all-All handled (r ∷ rs) h = elim (Bool-cases (elem (event_id_of r) handled)) [
    | inl old ↦ rw old (retire_all-All handled rs h.1)
    | inr left ↦ rw left (
        All-append P (retire u c r) (retire_all u c handled rs) (of_retired r h.0)
          (retire_all-All handled rs h.1))
  ]

  pub reconcile_post_events-All :
      Among rows rows
      → Among prepared prepared
      → All P (reconcile_post_events u c rows prepared).writes
  unfolding reconcile_post_events
  reconcile_post_events-All hr hp =
      let m = match_all u c rows 1 prepared begin in
      let k = match_all-IsKept 1 prepared begin hp (tt, tt) in
      let q = paired u c rows m in
      let l =
        pair_up-IsLeft (orphaned_protected m.current.handled rows) m.pending m.current
          (orphaned_protected-Among m.current.handled rows rows hr) k in
      let r = persist_pending u c q.1 q.0 in
      All-append P r.writes (retire_all u c r.handled rows) (persist_pending-All q.1 q.0 l.1 l.0)
        (retire_all-All r.handled rows hr)

All-map {ℓ κ η} :
    {A : Type ℓ} (P : A → Type κ) (Q : A → Type η) (xs : List A)
    → ((x : A) → P x → Q x)
    → All P xs
    → All Q xs
All-map P Q [] f h = tt
All-map P Q (x ∷ xs) f h = (f x h.0, All-map P Q xs f h.1)

pub Among-self : (rows : List Row) → Among rows rows
Among-self [] = tt
Among-self (r ∷ rs) =
    (inl refl, All-map (λ x. In x rs) (λ x. In x (r ∷ rs)) rs (λ x h. inr h) (Among-self rs))
