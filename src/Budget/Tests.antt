-- ===== src/Budget/Tests.antt =====
-- The budget's theorems at concrete inputs, and runs of its operations.
use cs_server.Prelude.{String, ◌≡◌, refl, true, false, none, List, [], ◌∷◌, arith, elem}
use cs_server.Prelude.Int.{pos}
use cs_server.Python.Except.{ok, raised, value_error, attribute_error}
use cs_server.Python.Json.{Json, int, str, arr, obj, nil, end, field, get, to_int, int_of_text}
use cs_server.Budget.Redis.{Keys, parsed, documented, missing, unset, count}
use cs_server.Budget.Redis.Simulation.{IsRedis}
use cs_server.Budget.Service.{QuotaSettings, settings_of, release_manual_slot, try_register_touch}
use cs_server.Budget.Counter.{reserve_times, reserve_times_exact}
use cs_server.Budget.Ledger.{IsWithin, gate_all, try_register_touch_gate, gate_all_ceiling}
use cs_server.Budget.Steps.{IsNonneg, here, next, release, Reach-IsNonneg}

abbrev config : Json
config = obj (field "monthly_quota" (str " 2 ") (field "manual_reserve" (int (pos 5)) end))

-- A quota of two, with the reserve cut down to it.
abbrev two : QuotaSettings
two = record { monthly_quota = pos 2; manual_reserve = pos 2 }

config_read : settings_of (parsed config) ≡ ok two
unfolding settings_of get to_int int_of_text
config_read = refl

bad_quota : settings_of (parsed (obj (field "monthly_quota" (str "many") end))) ≡ raised value_error
unfolding settings_of get to_int int_of_text
bad_quota = refl

bad_shape : settings_of (parsed (arr nil)) ≡ raised attribute_error
unfolding settings_of
bad_shape = refl

abbrev march : String
march = "2026-03"

abbrev store : Keys
store = record {
  config = parsed config;
  counters = λ ym. count (pos 1);
  touched = λ ym. "venue_a" ∷ [];
}

-- The documented effects themselves, as a client.
documented-IsRedis : IsRedis documented (λ s. s)
documented-IsRedis = record {
  config_read = λ s. refl;
  count_read = λ ym s. refl;
  incrby_sim = λ ym n. record { same = λ s. refl };
  decrby_sim = λ ym n. record { same = λ s. refl };
  set_sim = λ ym n. record { same = λ s. refl };
  sismember_sim = λ ym v. record { same = λ s. refl };
  scard_sim = λ ym. record { same = λ s. refl };
  sadd_sim = λ ym v. record { same = λ s. refl };
  srem_sim = λ ym v. record { same = λ s. refl };
}

reserve_times_exact_example :
    ((reserve_times documented 3 march store).0 ≡ 1)
    × ((reserve_times documented 3 march store).1.counters march ≡ count (pos 2))
reserve_times_exact_example =
    reserve_times_exact documented (λ s. s) documented-IsRedis 3 march store 1 2 two config_read
      refl refl (omega arith)

store-IsWithin : IsWithin 2 march store
store-IsWithin = record { distinct = (refl, tt); within = omega arith }

try_register_touch_gate_example :
    let r = try_register_touch documented march "venue_b" store in
    (r.0 ≡ ok true)
    × (r.0 ≡ ok true → elem "venue_b" (r.1.touched march) ≡ true)
    × (r.0 ≡ ok false → r.1.touched march ≡ store.touched march)
    × IsWithin 2 march r.1
try_register_touch_gate_example =
    try_register_touch_gate documented (λ s. s) documented-IsRedis march "venue_b" store 2 two
      config_read refl store-IsWithin

abbrev queue : List String
queue = "venue_b" ∷ "venue_c" ∷ "venue_a" ∷ []

-- The third new venue is refused, and one that was touched is read again.
gate_run : (gate_all documented march queue store).0 ≡ "venue_b" ∷ "venue_a" ∷ []
unfolding gate_all try_register_touch settings_of get to_int int_of_text
gate_run = refl

gate_all_ceiling_example :
    let r = gate_all documented march queue store in
    ((u : String) → elem u r.0 ≡ true → elem u (r.1.touched march) ≡ true) × IsWithin 2 march r.1
gate_all_ceiling_example =
    gate_all_ceiling documented (λ s. s) documented-IsRedis march queue store 2 two config_read refl
      store-IsWithin

abbrev fresh_store : Keys
fresh_store = record { config = missing; counters = λ ym. unset; touched = λ ym. [] }

fresh_store-IsNonneg : IsNonneg fresh_store
fresh_store-IsNonneg = record { at_month = λ j. omega arith }

-- A release with nothing reserved.
Reach-IsNonneg_example : IsNonneg (release_manual_slot documented march none fresh_store).1
Reach-IsNonneg_example =
    Reach-IsNonneg documented (λ s. s) documented-IsRedis {s = fresh_store} fresh_store-IsNonneg
      (next here (release fresh_store march none))
