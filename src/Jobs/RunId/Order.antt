-- ===== src/Jobs/RunId/Order.antt =====
-- The order of run ids as texts is the order in which they were made.
use cs_server.Prelude.{
  ℕ, zero, suc, ◌+◌, ◌/◌, ◌%◌, ◌^◌, ◌≤◌, ◌<◌, ◌≡◌, refl, sym, ◌∙◌, inl, inr, Bool, true, false,
  ◌&&◌, List, [], ◌∷◌, ◌++◌, ◌==◌, ltb, length, length-append, arith, Bool-cases, if◌then◌else◌,
}
use native.Mathlib.Nat.{pow-suc}
use cs_server.Events.Merge.{points_lt}
use cs_server.Jobs.RunId.{crockford, nth, encode, rand_max, Last, run_id, advance, new_run_id}

points_lt-append :
    (as' bs cs ds : List ℕ)
    → length as' ≡ length bs
    → points_lt as' bs ≡ true
    → points_lt (as' ++ cs) (bs ++ ds) ≡ true
unfolding points_lt
points_lt-append [] [] cs ds h k = cc
points_lt-append [] (b ∷ bs) cs ds h k = ground arith
points_lt-append (a ∷ as') [] cs ds h k = ground arith
points_lt-append (a ∷ as') (b ∷ bs) cs ds h k = ground (arith, points_lt-append as' bs cs ds)

points_lt-append_same :
    (as' cs ds : List ℕ) → points_lt cs ds ≡ true → points_lt (as' ++ cs) (as' ++ ds) ≡ true
unfolding points_lt
points_lt-append_same [] cs ds k = k
points_lt-append_same (a ∷ as') cs ds k = ground (arith, points_lt-append_same as' cs ds k)

length-encode : (n k : ℕ) → length (encode n k) ≡ k
unfolding encode
length-encode n zero = refl
length-encode n (suc k) = omega (
  arith,
  length-append (encode (n / 32) k) (nth crockford (n % 32) ∷ []),
  length-encode (n / 32) k,
)

-- Each element is less than the next.
abbrev is_rising : ℕ → List ℕ → Bool
is_rising low [] = true
is_rising low (c ∷ cs) = ltb low c && is_rising c cs

nth-above : (low n : ℕ) (cs : List ℕ) → is_rising low cs ≡ true → n < length cs → low < nth cs n
unfolding nth
nth-above low n [] h k = ground arith
nth-above low zero (c ∷ cs) h k = ground arith
nth-above low (suc n) (c ∷ cs) h k = ground (arith, nth-above c n cs)

nth_rising :
    (low m n : ℕ) (cs : List ℕ)
    → is_rising low cs ≡ true
    → m < n
    → n < length cs
    → nth cs m < nth cs n
unfolding nth
nth_rising low m n [] h j k = ground arith
nth_rising low m zero (c ∷ cs) h j k = ground arith
nth_rising low zero (suc n) (c ∷ cs) h j k = nth-above c n cs (ground arith) (omega arith)
nth_rising low (suc m) (suc n) (c ∷ cs) h j k =
    nth_rising c m n cs (ground arith) (omega arith) (omega arith)

digit_rising : (m n : ℕ) → m < n → n < 32 → nth crockford m < nth crockford n
digit_rising m n h k = nth_rising 0 m n crockford refl h (omega arith)

digit_before : {a b : ℕ} → a < b → points_lt (a ∷ []) (b ∷ []) ≡ true
unfolding points_lt
digit_before h = ground arith

-- Of two numbers that have their digits in the length, the lesser has the lesser text.
encode_rising : (k m n : ℕ) → m < n → n < 32 ^ k → points_lt (encode m k) (encode n k) ≡ true
unfolding encode
encode_rising zero m n h j = ground arith
encode_rising (suc k) m n h j = elim (Bool-cases (ltb (m / 32) (n / 32))) [
  | inl higher ↦
      points_lt-append (encode (m / 32) k) (encode (n / 32) k) _ _
        (length-encode (m / 32) k ∙ sym (length-encode (n / 32) k))
        (encode_rising k (m / 32) (n / 32) (ground arith) (omega (arith, pow-suc 32 k)))
  | inr same ↦ rw (quotient same) (
      points_lt-append_same (encode (n / 32) k) _ _
        (digit_before (digit_rising (m % 32) (n % 32) (remainder same) (omega arith))))
]
  where
    quotient : ltb (m / 32) (n / 32) ≡ false → m / 32 ≡ n / 32
    quotient same = ground arith

    remainder : ltb (m / 32) (n / 32) ≡ false → m % 32 < n % 32
    remainder same = ground arith

next_rand : (r : ℕ) → r < rand_max → (if ltb (r + 1) rand_max then r + 1 else rand_max) ≡ r + 1
next_rand r h = elim (Bool-cases (ltb (r + 1) rand_max)) [
  | inl room ↦ rw room refl
  | inr full ↦ rw full (ground arith)
]

advance_rising :
    (ms drawn : ℕ) (l : Last)
    → l.ms ≤ ms
    → ms < 32 ^ 10
    → l.rand < rand_max
    → points_lt (run_id l) (run_id (advance ms drawn l)) ≡ true
advance_rising ms drawn l h j k = elim (Bool-cases (ms == l.ms)) [
  | inl same ↦
      rw (same, next_rand l.rand k)
        (points_lt-append_same (encode l.ms 10) _ _
          (encode_rising 16 l.rand (l.rand + 1) (omega arith) (omega arith)))
  | inr later ↦ rw later (
      points_lt-append (encode l.ms 10) (encode ms 10) _ _
        (length-encode l.ms 10 ∙ sym (length-encode ms 10))
        (encode_rising 10 l.ms ms (ground arith) j))
]

ms-advance : (ms drawn : ℕ) (l : Last) → (advance ms drawn l).ms ≡ ms
ms-advance ms drawn l = elim (Bool-cases (ms == l.ms)) [
  | inl same ↦ rw same (ground arith)
  | inr later ↦ rw later refl
]

-- Of two runs that start one after the other, the id of the second is the greater text, also where
-- both start within one millisecond: so long as the clock does not go back, its milliseconds have
-- at most ten digits in base 32, and the random part of the first id is below its maximum.
pub new_run_id_rising :
    (ms drawn ms' drawn' : ℕ) (l : Last)
    → ms ≤ ms'
    → ms' < 32 ^ 10
    → (new_run_id ms drawn l).1.rand < rand_max
    → points_lt (new_run_id ms drawn l).0 (new_run_id ms' drawn' (new_run_id ms drawn l).1).0 ≡ true
unfolding new_run_id
new_run_id_rising ms drawn ms' drawn' l h j k =
    advance_rising ms' drawn' (advance ms drawn l) (omega (arith, ms-advance ms drawn l)) j k
