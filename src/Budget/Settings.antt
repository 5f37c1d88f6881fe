-- ===== src/Budget/Settings.antt =====
-- What the quota settings promise whatever the admin key holds.
use cs_server.Prelude.{◌≡◌, ◌∙◌, ap, arith}
use cs_server.Prelude.Int.{ℤ, pos, ◌≤ℤ◌, ◌-ℤ◌}
use cs_server.Python.Except.{Result, ok, raised}
use cs_server.Python.Json
use cs_server.Budget.Redis.{Redis, Keys, ConfigRead, parsed, documented}
use cs_server.Budget.Redis.Simulation.{IsRedis}
use cs_server.Budget.Service.{QuotaSettings, settings_of, both, clamp_settings, get_refresh_budget}
use cs_server.Budget.Refinement.{get_refresh_budget-Simulates}

record IsSane (c : QuotaSettings) : Type 0 where
  pub reserve_nonneg : pos 0 ≤ℤ c.manual_reserve
  pub reserve-le-quota : c.manual_reserve ≤ℤ c.monthly_quota

both-IsSane : (q r : Result ℤ) (c : QuotaSettings) → both q r ≡ ok c → IsSane c
unfolding clamp_settings
both-IsSane (ok q) (ok r) c h = ground arith
both-IsSane (ok q) (raised e) c h = ground arith
both-IsSane (raised e) r c h = ground arith

-- Whatever the admin key holds, settings that are returned have 0 ≤ reserve ≤ quota.
settings_of-IsSane : (r : ConfigRead) (c : QuotaSettings) → settings_of r ≡ ok c → IsSane c
unfolding settings_of
settings_of-IsSane (parsed (Json.obj fs)) c h = both-IsSane _ _ c h
settings_of-IsSane (parsed _) c h = ground arith
settings_of-IsSane _ c h = ground arith

keys_budget :
    (s : Keys) (c : QuotaSettings)
    → settings_of s.config ≡ ok c
    → get_refresh_budget documented s ≡ (ok (c.monthly_quota -ℤ c.manual_reserve), s)
unfolding get_refresh_budget ◌-ℤ◌
keys_budget s c h = ground (arith, settings_of-IsSane s.config c)

-- On a client that behaves as Redis documents, with settings that can be read, the refresh budget is
-- exactly the quota less the reserve: the clamp at zero never acts on settings that
-- `get_quota_settings` returns. The keys stay as they are.
get_refresh_budget-exact :
    {S : Type 0} (redis : Redis S) (view : S → Keys)
    → IsRedis redis view
    → (s : S) (c : QuotaSettings) → settings_of (view s).config ≡ ok c
    → let r = get_refresh_budget redis s in
      (r.0 ≡ ok (c.monthly_quota -ℤ c.manual_reserve)) × (view r.1 ≡ view s)
get_refresh_budget-exact redis view law s c h =
    let same = (get_refresh_budget-Simulates redis view law).same s ∙ keys_budget (view s) c h in
    (ap (λ (p : Result ℤ × Keys). p.0) same, ap (λ (p : Result ℤ × Keys). p.1) same)
