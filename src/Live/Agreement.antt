-- ===== src/Live/Agreement.antt =====
-- How the freshness window and the refresher's interval fit together.
use cs_server.Prelude.{
  ℕ, suc, ◌+◌, ◌*◌, ◌/◌, ◌%◌, ◌≤◌, ◌<◌, ◌≡◌, ◌⊎◌, inl, inr, some, arith, Bool-cases, ltb,
  if◌then◌else◌, subst,
}
use native.Mathlib.Nat.{mod-lt, lt_of_mul-lt-mul_left, mul-le-mul_right}
use native.Mathlib.Omega.{div_any}
use cs_server.Prelude.Int.{ℤ, pos_part}
use cs_server.Python.Json.{Json, null, bool, int, decimal, str, arr, obj, to_int}
use cs_server.Live.Watch.{accept, unwrap, parse_minutes}
use cs_server.Live.Freshness.{
  AdminRead, value, coerce_minutes, resolve_refresh_minutes, round_half_even,
  resolve_max_age_minutes, int_or_none, bounded_or,
}

accepted :
    (default n : ℤ) (v : Json) → accept v ≡ some n → bounded_or default (int_or_none (to_int v)) ≡ n
unfolding to_int
accepted default n null h = cc
accepted default n (bool b) h = cc
accepted default n (int m) h = ground arith
accepted default n (decimal m k) h = cc
accepted default n (str s) h = cc
accepted default n (arr xs) h = cc
accepted default n (obj fs) h = cc

-- Where the watcher accepts a value as n minutes, the freshness window reads n from it too.
parse_minutes-resolve :
    (default n : ℤ) (raw : Json)
    → parse_minutes (some raw) ≡ some n
    → resolve_refresh_minutes default (value raw) ≡ n
unfolding parse_minutes resolve_refresh_minutes coerce_minutes
parse_minutes-resolve default n raw h = accepted default n (unwrap raw) h

-- From here the numerator is written by the quotient and the remainder.
near :
    (d q r : ℕ)
    → r < d
    → let e = if ltb (2 * r) d then q else (if ltb d (2 * r) then q + 1 else q + q % 2) in
      (2 * (d * e) ≤ 2 * (d * q + r) + d) × (2 * (d * q + r) ≤ 2 * (d * e) + d)
near d q r h = elim (Bool-cases (ltb (2 * r) d)) [
  | inl low ↦ rw low (ground arith)
  | inr not_low ↦ elim (Bool-cases (ltb d (2 * r))) [
    | inl high ↦ rw (not_low, high) (ground arith)
    | inr half ↦ rw (not_low, half) (to_even (parity q) (ground arith))
  ]
]
  where
    parity : (m : ℕ) → (m % 2 ≡ 0) ⊎ (m % 2 ≡ 1)
    parity m = ground arith

    to_even :
        (q % 2 ≡ 0) ⊎ (q % 2 ≡ 1)
        → 2 * r ≡ d
        → (2 * (d * (q + q % 2)) ≤ 2 * (d * q + r) + d)
          × (2 * (d * q + r) ≤ 2 * (d * (q + q % 2)) + d)
    to_even (inl even) k = rw even (ground arith)
    to_even (inr odd) k = rw odd (ground arith)

-- `round` is within a half of the fraction: twice the denominator times the result is at most one
-- denominator away from twice the numerator.
round_half_even-near :
    (n d : ℕ)
    → 0 < d
    → (2 * (d * round_half_even n d) ≤ 2 * n + d) × (2 * n ≤ 2 * (d * round_half_even n d) + d)
unfolding round_half_even
round_half_even-near n d h =
    subst
      (λ m.
        let e =
          if ltb (2 * (n % d)) d
          then n / d
          else (if ltb d (2 * (n % d)) then n / d + 1 else n / d + n / d % 2) in
        (2 * (d * e) ≤ 2 * m + d) × (2 * m ≤ 2 * (d * e) + d))
      (omega (arith, div_any n d)) (near d (n / d) (n % d) (mod-lt n h))

covers : (d i n e : ℕ) → 0 < d → d * i ≤ n → 2 * n ≤ 2 * (d * e) + d → i ≤ e
covers d i n e h k l = omega (arith, lt_of_mul-lt-mul_left d {m = i} {n = suc e} (omega arith))

-- The freshness window is never below its floor, and with a factor of at least one it is never below the
-- interval between two refreshes, so a venue that was just refreshed on time is not yet out of it.
resolve_max_age_minutes_covers :
    (default : ℤ) (num den floor : ℕ) (read : AdminRead)
    → 0 < den
    → den ≤ num
    → (floor ≤ resolve_max_age_minutes default num den floor read)
      × (pos_part (resolve_refresh_minutes default read)
          ≤ resolve_max_age_minutes default num den floor read)
unfolding resolve_max_age_minutes
resolve_max_age_minutes_covers default num den floor read h k = ground (
  arith,
  covers den i (num * i) (round_half_even (num * i) den) h (mul-le-mul_right i k)
      (round_half_even-near (num * i) den h).1,
)
  where
    i : ℕ
    i = pos_part (resolve_refresh_minutes default read)
