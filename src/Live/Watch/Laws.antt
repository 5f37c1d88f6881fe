-- ===== src/Live/Watch/Laws.antt =====
-- The watcher keeps a usable interval, and tells each change and each bad value once.
use cs_server.Prelude.{
  String, ◌≡◌, refl, ◌⊎◌, inl, inr, true, ◌&&◌, Option, none, some, List, [], ◌∷◌, arith, eq_refl,
  Bool-cases,
}
use cs_server.Prelude.Int.{ℤ, leb_ℤ}
use cs_server.Python.Json.{Json, null, bool, int, decimal, str, arr, obj}
use cs_server.Live.Watch.{
  Watcher, quiet, in_bounds, accept, unwrap, parse_minutes, is_last, apply_minutes, judge,
  check_once,
}

accept-in_bounds : (v : Json) (n : ℤ) → accept v ≡ some n → in_bounds n ≡ true
accept-in_bounds null n h = cc
accept-in_bounds (bool b) n h = cc
accept-in_bounds (int m) n h = ground arith
accept-in_bounds (decimal m k) n h = cc
accept-in_bounds (str s) n h = cc
accept-in_bounds (arr xs) n h = cc
accept-in_bounds (obj fs) n h = cc

parse_minutes-in_bounds : (v : Option Json) (n : ℤ) → parse_minutes v ≡ some n → in_bounds n ≡ true
unfolding parse_minutes
parse_minutes-in_bounds none n h = cc
parse_minutes-in_bounds (some v) n h = accept-in_bounds (unwrap v) n h

-- The interval that runs is the default or within the bounds.
abbrev pub IsUsable : Watcher → Type 0
IsUsable w = (w.applied ≡ w.default) ⊎ (in_bounds w.applied ≡ true)

apply_minutes-IsUsable :
    (n : ℤ) (w : Watcher)
    → (n ≡ w.default) ⊎ (in_bounds n ≡ true)
    → IsUsable w
    → IsUsable (apply_minutes n w).0
apply_minutes-IsUsable n w h u = elim (Bool-cases (leb_ℤ n w.applied && leb_ℤ w.applied n)) [
  | inl same ↦ rw same u
  | inr other ↦ rw other h
]

judge-IsUsable :
    (raw : String) (o : Option ℤ) (w : Watcher)
    → ((n : ℤ) → o ≡ some n → in_bounds n ≡ true)
    → IsUsable w
    → IsUsable (judge raw o w).0
judge-IsUsable raw none w h u = elim (Bool-cases (is_last raw w.last_rejected)) [
  | inl again ↦ rw again u
  | inr first ↦ rw first u
]
judge-IsUsable raw (some n) w h u = apply_minutes-IsUsable n w (inr (h n refl)) u

-- The checks of one run of the server, in order.
unfoldable pub check_all : (String → Option Json) → List (Option String) → Watcher → Watcher
check_all loads [] w = w
check_all loads (raw ∷ raws) w = check_all loads raws (check_once loads raw w).0

check_once-IsUsable :
    (loads : String → Option Json) (raw : Option String) (w : Watcher)
    → IsUsable w
    → IsUsable (check_once loads raw w).0 × ((check_once loads raw w).0.default ≡ w.default)
unfolding check_once
check_once-IsUsable loads none w u = (apply_minutes-IsUsable w.default w (inl refl) u, ground arith)
check_once-IsUsable loads (some raw) w u = (
  judge-IsUsable raw (parse_minutes (loads raw)) w (parse_minutes-in_bounds (loads raw)) u,
  ground arith,
)

-- From an interval that is the default or from 1 to 120 minutes, whatever texts the key holds over
-- time, valid or not, the interval that runs is the default or one from 1 to 120 minutes.
pub check_all-IsUsable :
    (loads : String → Option Json) (raws : List (Option String)) (w : Watcher)
    → IsUsable w
    → IsUsable (check_all loads raws w)
unfolding check_all
check_all-IsUsable loads [] w u = u
check_all-IsUsable loads (raw ∷ raws) w u =
    check_all-IsUsable loads raws (check_once loads raw w).0 (check_once-IsUsable loads raw w u).0

apply_minutes-again :
    (n : ℤ) (w : Watcher) → apply_minutes n (apply_minutes n w).0 ≡ ((apply_minutes n w).0, quiet)
apply_minutes-again n w = ground arith

judge-again :
    (raw : String) (o : Option ℤ) (w : Watcher)
    → judge raw o (judge raw o w).0 ≡ ((judge raw o w).0, quiet)
judge-again raw none w = ground (arith, eq_refl raw)
judge-again raw (some n) w = apply_minutes-again n w

-- A second check of the same value does nothing: no new schedule, no second warning, the same state.
check_once-again :
    (loads : String → Option Json) (raw : Option String) (w : Watcher)
    → check_once loads raw (check_once loads raw w).0 ≡ ((check_once loads raw w).0, quiet)
unfolding check_once
check_once-again loads none w = ground arith
check_once-again loads (some raw) w = judge-again raw (parse_minutes (loads raw)) w
