-- ===== src/Budget/Redis.antt =====
-- Redis, which the budget reads and writes: a parameter. What the code relies on are the documented
-- effects of a few commands on the keys that the budget uses: the admin key with the quota, a counter
-- for each month, and a set of venue ids for each month, keyed by the month `YYYY-MM`.
-- A lost connection is modelled where the code handles it, at the read of the admin key; elsewhere the
-- code logs it and raises it again. The time to live of the sets runs past the month and is left out.
pub mod Simulation
use cs_server.Prelude.{
  ℕ, String, ◌≡◌, Bool, true, false, List, ◌∷◌, length, elem, remove, update, if◌then◌else◌,
}
use cs_server.Prelude.Int.{ℤ, pos, ◌+ℤ◌, ◌-ℤ◌}
use cs_server.Python.Except.{Result, Exec, ok, raised, redis_error}
use cs_server.Python.Json.{Json}

-- What reading `admin_config:venue_monthly_budget` and `json.loads` give.
pub data ConfigRead : Type 0 where
  read_failed missing invalid_json : ConfigRead
  parsed : Json → ConfigRead

-- The text stored under a counter's key: none, an integer, or something else.
pub data Cell : Type 0 where
  unset garbled : Cell
  count : ℤ → Cell

-- GET of a counter, through `int(raw)` with its fallback.
abbrev pub cell_value : Cell → ℤ
cell_value unset = pos 0
cell_value garbled = pos 0
cell_value (count n) = n

-- A client, with the commands that the code sends. A call may change the state of the client.
pub record Redis (S : Type 0) : Type 0 where
  pub get_config : S → ConfigRead
  pub get : String → S → Cell
  pub incrby : String → ℤ → Exec S ℤ
  pub decrby : String → ℤ → Exec S ℤ
  pub set : String → ℤ → Exec S (Unit {0})
  pub sismember : String → String → Exec S Bool
  pub scard : String → Exec S ℕ
  pub sadd : String → String → Exec S Bool
  pub srem : String → String → Exec S (Unit {0})

-- What the keys hold.
pub record Keys : Type 0 where
  pub config : ConfigRead
  pub counters : String → Cell
  pub touched : String → List String

abbrev set_counter : String → ℤ → Keys → Keys
set_counter ym n s = record s { counters = update s.counters ym (count n) }

-- INCRBY and DECRBY refuse a value that is no integer.
abbrev add_cell : String → Cell → ℤ → Exec Keys ℤ
add_cell ym unset n s = (ok n, set_counter ym n s)
add_cell ym garbled n s = (raised redis_error, s)
add_cell ym (count c) n s = (ok (c +ℤ n), set_counter ym (c +ℤ n) s)

-- SADD answers whether the member is new.
abbrev add_member : String → String → Exec Keys Bool
add_member ym v s =
    if elem v (s.touched ym)
    then (ok false, s)
    else (ok true, record s { touched = update s.touched ym (v ∷ s.touched ym) })

abbrev drop_member : String → String → Exec Keys (Unit {0})
drop_member ym v s = (ok tt, record s { touched = update s.touched ym (remove v (s.touched ym)) })

-- The documented effects of the commands on the keys.
abbrev pub documented : Redis Keys
documented = record {
  get_config = λ s. s.config;
  get = λ ym s. s.counters ym;
  incrby = λ ym n s. add_cell ym (s.counters ym) n s;
  decrby = λ ym n s. add_cell ym (s.counters ym) (pos 0 -ℤ n) s;
  set = λ ym n s. (ok tt, set_counter ym n s);
  sismember = λ ym v s. (ok (elem v (s.touched ym)), s);
  scard = λ ym s. (ok (length (s.touched ym)), s);
  sadd = add_member;
  srem = drop_member;
}
