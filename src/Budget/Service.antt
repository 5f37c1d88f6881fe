-- ===== src/Budget/Service.antt =====
-- `VenueBudgetService` of app/services/venue_budget_service.py. The month that the provider gives is
-- an argument of each method.
use cs_server.Prelude.{ℕ, String, Bool, true, false, not, Option, none, some, if◌then◌else◌}
use cs_server.Prelude.Int.{ℤ, pos, ltb_ℤ, max_ℤ, ◌-ℤ◌}
use cs_server.Python.Except.{Result, Exec, ok, raised, attribute_error, proceed, pure, ◌>>=◌, ◌>>◌}
use cs_server.Python.Json.{Json, obj, get, to_int}
use cs_server.Budget.Redis.{Redis, ConfigRead, read_failed, missing, invalid_json, parsed}
use cs_server.Budget.Dao

abbrev default_monthly_quota : ℤ
default_monthly_quota = pos 500

abbrev default_manual_reserve : ℤ
default_manual_reserve = pos 10

pub record QuotaSettings : Type 0 where
  pub monthly_quota : ℤ
  pub manual_reserve : ℤ

pub record BudgetSnapshot : Type 0 where
  pub quota : ℤ
  pub manual_reserve : ℤ
  pub month_counter : ℤ
  pub year_month : String
  pub discovery_effective_cap_remaining : ℤ
  pub manual_add_available : ℤ

-- `int(cfg.get(key, default))`
abbrev int_or : ℤ → Option Json → Result ℤ
int_or d none = ok d
int_or d (some v) = to_int v

-- The defensive clamps.
unfoldable pub clamp_settings : ℤ → ℤ → QuotaSettings
clamp_settings quota reserve =
    let q = if ltb_ℤ quota (pos 0) then pos 0 else quota in
    let r = if ltb_ℤ reserve (pos 0) then pos 0 else reserve in
    record { monthly_quota = q; manual_reserve = if ltb_ℤ q r then q else r }

abbrev pub both : Result ℤ → Result ℤ → Result QuotaSettings
both (ok q) (ok r) = ok (clamp_settings q r)
both (ok q) (raised e) = raised e
both (raised e) r = raised e

-- `cfg.get` fails on a value that is no object.
settings_of_json : Json → Result QuotaSettings
settings_of_json (obj fs) =
    both (int_or default_monthly_quota (get "monthly_quota" fs))
      (int_or default_manual_reserve (get "manual_reserve" fs))
settings_of_json _ = raised attribute_error

abbrev default_settings : QuotaSettings
default_settings = record {
  monthly_quota = default_monthly_quota;
  manual_reserve = default_manual_reserve;
}

unfoldable pub settings_of : ConfigRead → Result QuotaSettings
unfolding settings_of_json clamp_settings
settings_of read_failed = ok default_settings
settings_of missing = ok default_settings
settings_of invalid_json = ok default_settings
settings_of (parsed v) = settings_of_json v

-- What is left for discovery and for manual adds at a counter's value.
abbrev pub snapshot_at : QuotaSettings → String → ℤ → BudgetSnapshot
snapshot_at c ym n = record {
  quota = c.monthly_quota;
  manual_reserve = c.manual_reserve;
  month_counter = n;
  year_month = ym;
  discovery_effective_cap_remaining = max_ℤ (pos 0) (c.monthly_quota -ℤ c.manual_reserve -ℤ n);
  manual_add_available = max_ℤ (pos 0) (c.monthly_quota -ℤ n);
}

-- The snapshot of a denial reports the cap as the counter.
abbrev pub denied : QuotaSettings → String → BudgetSnapshot
denied c ym = record {
  quota = c.monthly_quota;
  manual_reserve = c.manual_reserve;
  month_counter = c.monthly_quota;
  year_month = ym;
  discovery_effective_cap_remaining = pos 0;
  manual_add_available = pos 0;
}

-- `year_month or self._year_month_provider()`: an empty text counts as no month.
abbrev pub month_or : Option String → String → String
month_or none current = current
month_or (some String.[]) current = current
month_or (some ym) current = ym

module _ {S : Type 0} (redis : Redis S) where
  unfoldable pub get_quota_settings : Exec S QuotaSettings
  get_quota_settings s = (settings_of (redis.get_config s), s)

  unfoldable pub get_refresh_budget : Exec S ℤ
  unfolding get_quota_settings
  get_refresh_budget = do
    c ← get_quota_settings
    pure (max_ℤ (pos 0) (c.monthly_quota -ℤ c.manual_reserve))

  unfoldable unique_touched_count : String → Exec S ℕ
  unfolding Dao.touch_count
  unique_touched_count ym = Dao.touch_count redis ym

  unfoldable pub mark_touched : String → String → Exec S (Unit {0})
  unfolding Dao.add_touch
  mark_touched ym venue = do _ ← Dao.add_touch redis ym venue; pure tt

  -- The part of `try_register_touch` after the venue was found new to the month.
  unfoldable pub register_new : QuotaSettings → String → String → Exec S Bool
  unfolding Dao.add_touch Dao.remove_touch
  register_new c ym venue s =
      proceed (Dao.add_touch redis ym venue s).0 (Dao.add_touch redis ym venue s).1
        λ (r : Bool × ℕ).
          if not r.0
          then pure true
          else (if ltb_ℤ c.monthly_quota (pos r.1)
              then (do Dao.remove_touch redis ym venue; pure false)
              else pure true)

  unfoldable pub try_register_touch : String → String → Exec S Bool
  unfolding get_quota_settings Dao.is_touched register_new
  try_register_touch ym venue = do
    c ← get_quota_settings
    seen ← Dao.is_touched redis ym venue
    if seen then pure true else register_new c ym venue

  unfoldable pub get_snapshot : String → Exec S BudgetSnapshot
  unfolding get_quota_settings Dao.get_month_count
  get_snapshot ym = do
    c ← get_quota_settings
    n ← Dao.get_month_count redis ym
    pure (snapshot_at c ym n)

  unfoldable discovery_effective_cap_remaining : String → Exec S ℤ
  unfolding get_snapshot
  discovery_effective_cap_remaining ym = do
    snap ← get_snapshot ym
    pure snap.discovery_effective_cap_remaining

  unfoldable can_manual_add : String → Exec S Bool
  unfolding get_snapshot
  can_manual_add ym = do snap ← get_snapshot ym; pure (ltb_ℤ (pos 0) snap.manual_add_available)

  -- INCR, then validate, then roll back.
  unfoldable pub reserve_manual_slot : String → Exec S (Bool × BudgetSnapshot)
  unfolding get_quota_settings Dao.increment_month Dao.decrement_month
  reserve_manual_slot ym = do
    c ← get_quota_settings
    n ← Dao.increment_month redis ym (pos 1)
    if ltb_ℤ c.monthly_quota n
        then (do Dao.decrement_month redis ym (pos 1); pure (false, denied c ym))
        else pure (true, snapshot_at c ym n)

  unfoldable pub release_manual_slot : String → Option String → Exec S (Unit {0})
  unfolding Dao.decrement_month
  release_manual_slot current ym = do
    _ ← Dao.decrement_month redis (month_or ym current) (pos 1)
    pure tt

  unfoldable pub record_new_venue_from_discovery : String → Exec S ℤ
  unfolding Dao.increment_month
  record_new_venue_from_discovery ym = Dao.increment_month redis ym (pos 1)

  unfoldable pub release_discovery_slot : String → Option String → Exec S (Unit {0})
  unfolding Dao.decrement_month
  release_discovery_slot current ym = do
    _ ← Dao.decrement_month redis (month_or ym current) (pos 1)
    pure tt
