-- ===== src/Jobs/RunId.antt =====
-- `_encode` and `new_run_id` of app/services/pipeline_run_registry.py. The clock's reading in
-- milliseconds and the random draw are arguments.
pub mod Order
use cs_server.Prelude.{
  ℕ, zero, suc, ◌+◌, ◌-◌, ◌/◌, ◌%◌, ◌^◌, String, Bool, true, false, List, [], ◌∷◌, ◌++◌, ◌==◌, ltb,
  if◌then◌else◌,
}
use cs_server.Python.Json.{codes}

abbrev pub crockford : List ℕ
crockford = codes "0123456789ABCDEFGHJKMNPQRSTVWXYZ"

-- `_CROCKFORD[rem]` of a remainder below the alphabet's length.
unfoldable pub nth : List ℕ → ℕ → ℕ
nth [] n = 0
nth (c ∷ cs) zero = c
nth (c ∷ cs) (suc n) = nth cs n

-- The digits in base 32, the highest first, as code points.
unfoldable pub encode : ℕ → ℕ → List ℕ
unfolding nth
encode value zero = []
encode value (suc length) = encode (value / 32) length ++ nth crockford (value % 32) ∷ []

abbrev pub rand_max : ℕ
rand_max = 2 ^ 80 - 1

-- `_last_ms` and `_last_rand`.
pub record Last : Type 0 where
  pub ms : ℕ
  pub rand : ℕ

abbrev pub run_id : Last → List ℕ
run_id l = encode l.ms 10 ++ encode l.rand 16

abbrev pub advance : ℕ → ℕ → Last → Last
advance ms drawn l =
    if ms == l.ms
    then record l { rand = if ltb (l.rand + 1) rand_max then l.rand + 1 else rand_max }
    else record { ms = ms; rand = drawn }

unfoldable pub new_run_id : ℕ → ℕ → Last → List ℕ × Last
new_run_id ms drawn l = (run_id (advance ms drawn l), advance ms drawn l)
