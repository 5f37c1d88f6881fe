-- ===== src/Events/Reconcile/Counted.antt =====
-- Counting the writes and the waiting events of a run by their keys.
use cs_server.Prelude.{
  str_eq_sym, ℕ, ◌+◌, String, ◌≡◌, ◌∙◌, refl, ap, Bool, true, false, not, ◌&&◌, ◌||◌, Option, none,
  some, List, [], ◌∷◌, ◌++◌, arith, elem, map, eq_iff, str_eq, Bool-cases, inl, inr,
}
use cs_server.Events.Row.{Row, get, merge}
use cs_server.Events.Identity.{TextTables}
use cs_server.Events.Posts.{Pending, Write, insert, update, run, key_of, is_text, hook_write}
use cs_server.Events.Reconcile.Writes.{All}

abbrev pub one_if : Bool → ℕ
one_if true = 1
one_if false = 0

-- The write names the key as that of its event.
abbrev pub carries : {Hook : Type 0} → String → Write Hook → Bool
carries k (insert f) = is_text k (get f "source_event_key")
carries k (update id f) = is_text k (get f "source_event_key")
carries k (run h) = false

-- How many writes carry the key.
unfoldable pub count_key : {Hook : Type 0} → String → List (Write Hook) → ℕ
count_key k [] = 0
count_key k (w ∷ ws) = let rest = count_key k ws in one_if (carries k w) + rest

pub count_key-append :
    {Hook : Type 0} (k : String) (ws vs : List (Write Hook))
    → count_key k (ws ++ vs) ≡ count_key k ws + count_key k vs
unfolding count_key
count_key-append k [] vs = omega arith
count_key-append k (w ∷ ws) vs = omega (arith, count_key-append k ws vs)

pub count_key-hook : {Hook : Type 0} (k : String) (h : Option Hook) → count_key k (hook_write h) ≡ 0
unfolding count_key
count_key-hook k none = refl
count_key-hook k (some h) = refl

-- How many of the events that wait have the key.
abbrev pub waiting : String → List Pending → ℕ
waiting k [] = 0
waiting k ((index, p, key) ∷ ps) = one_if (str_eq key k) + waiting k ps

pub waiting-append :
    (k : String) (ps qs : List Pending) → waiting k (ps ++ qs) ≡ waiting k ps + waiting k qs
waiting-append k [] qs = omega arith
waiting-append k ((index, p, key) ∷ ps) qs = omega (arith, waiting-append k ps qs)

-- A row that names no key.
abbrev pub NoKey : Row → Type 0
NoKey p = p "source_event_key" ≡ none

abbrev pub WaitNoKey : List Pending → Type 0
WaitNoKey = All λ (q : Pending). NoKey q.1

pub WaitNoKey-append : (ps qs : List Pending) → WaitNoKey ps → WaitNoKey qs → WaitNoKey (ps ++ qs)
WaitNoKey-append [] qs h g = g
WaitNoKey-append (p ∷ ps) qs h g = (h.0, WaitNoKey-append ps qs h.1 g)

-- Whether the key is one of the fresh events' and none of those seen.
abbrev pub unseen_key : TextTables → String → List String → List Row → Bool
unseen_key u k seen ps = not (elem k seen) && elem k (map (key_of u) ps)

pub unseen-end : (k : String) (seen : List String) → one_if (not (elem k seen) && false) ≡ 0
unseen-end k seen = ground arith

pub unseen-old :
    (key k : String) (seen rest : List String)
    → elem key seen ≡ true
    → (not (elem k seen) && (str_eq k key || elem k rest)) ≡ (not (elem k seen) && elem k rest)
unseen-old key k seen rest h = elim (Bool-cases (str_eq k key)) [
  | inl same ↦
      let there : elem k seen ≡ true = ap (λ x. elem x seen) ((eq_iff k key).0 same) ∙ h in
      rw (there) refl
  | inr other ↦ rw other refl
]

pub unseen-new :
    (key k : String) (seen rest : List String)
    → elem key seen ≡ false
    → one_if (str_eq key k) + one_if (not (str_eq k key || elem k seen) && elem k rest)
      ≡ one_if (not (elem k seen) && (str_eq k key || elem k rest))
unseen-new key k seen rest h = elim (Bool-cases (str_eq k key)) [
  | inl same ↦
      let there : elem k seen ≡ false = ap (λ x. elem x seen) ((eq_iff k key).0 same) ∙ h in
      let back : str_eq key k ≡ true = str_eq_sym key k ∙ same in rw (there, same, back) refl
  | inr other ↦
      let back : str_eq key k ≡ false = str_eq_sym key k ∙ other in rw (other, back) (omega arith)
]

pub merge-other :
    (row more : Row)
    → more "source_event_key" ≡ none
    → merge row more "source_event_key" ≡ row "source_event_key"
merge-other row more h = rw (merge, h) refl
