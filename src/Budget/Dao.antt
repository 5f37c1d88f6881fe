-- ===== src/Budget/Dao.antt =====
-- `VenueBudgetDao` of app/dao/venue_budget_dao.py.
use cs_server.Prelude.{ℕ, String, Bool, if◌then◌else◌}
use cs_server.Prelude.Int.{ℤ, pos, leb_ℤ, ltb_ℤ}
use cs_server.Python.Except.{Exec, ok, pure, ◌>>=◌, ◌>>◌}
use cs_server.Budget.Redis.{Redis, cell_value}

module _ {S : Type 0} (redis : Redis S) where
  unfoldable pub get_month_count : String → Exec S ℤ
  get_month_count ym s = (ok (cell_value (redis.get ym s)), s)

  unfoldable pub increment_month : String → ℤ → Exec S ℤ
  unfolding get_month_count
  increment_month ym n = if leb_ℤ n (pos 0) then get_month_count ym else redis.incrby ym n

  -- A negative result is replaced by zero.
  unfoldable pub clamp_negative : String → ℤ → Exec S ℤ
  clamp_negative ym v = if ltb_ℤ v (pos 0) then (do redis.set ym (pos 0); pure (pos 0)) else pure v

  unfoldable pub decrement_month : String → ℤ → Exec S ℤ
  unfolding get_month_count clamp_negative
  decrement_month ym n =
      if leb_ℤ n (pos 0) then get_month_count ym else do v ← redis.decrby ym n; clamp_negative ym v

  unfoldable pub is_touched : String → String → Exec S Bool
  is_touched = redis.sismember

  unfoldable pub touch_count : String → Exec S ℕ
  touch_count = redis.scard

  -- Whether the venue is new, and the number of venues.
  unfoldable pub add_touch : String → String → Exec S (Bool × ℕ)
  add_touch ym v = do added ← redis.sadd ym v; n ← redis.scard ym; pure (added, n)

  unfoldable pub remove_touch : String → String → Exec S (Unit {0})
  remove_touch = redis.srem
