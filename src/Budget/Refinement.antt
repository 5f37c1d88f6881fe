-- ===== src/Budget/Refinement.antt =====
-- Every operation of the budget on a real client does what the same operation does on the keys.
use cs_server.Prelude.{String, ap, true, false, not, Option}
use cs_server.Prelude.Int.{ℤ, pos, leb_ℤ, ltb_ℤ, max_ℤ, ◌-ℤ◌}
use cs_server.Python.Except.{ok}
use cs_server.Budget.Redis.{Redis, Keys, documented, cell_value}
use cs_server.Budget.Redis.Simulation.{
  Simulates, IsRedis, pure-Simulates, >>=-Simulates, if-Simulates,
}
use cs_server.Budget.Dao
use cs_server.Budget.Service.{
  QuotaSettings, settings_of, denied, snapshot_at, month_or, get_quota_settings,
  reserve_manual_slot, release_manual_slot, record_new_venue_from_discovery, release_discovery_slot,
  register_new, try_register_touch, mark_touched, get_snapshot, get_refresh_budget,
}

module _ {S : Type 0} (redis : Redis S) (view : S → Keys) (law : IsRedis redis view) where
  get_month_count-Simulates :
      (ym : String)
      → Simulates view (Dao.get_month_count redis ym) (Dao.get_month_count documented ym)
  unfolding Dao.get_month_count
  get_month_count-Simulates ym = record {
    same = λ s. ap (λ x. (ok (cell_value x), view s)) (law.count_read ym s);
  }

  increment_month-Simulates :
      (ym : String) (n : ℤ)
      → Simulates view (Dao.increment_month redis ym n) (Dao.increment_month documented ym n)
  unfolding Dao.increment_month
  increment_month-Simulates ym n =
      if-Simulates view (leb_ℤ n (pos 0)) _ _ _ _ (get_month_count-Simulates ym)
        (law.incrby_sim ym n)

  clamp_negative-Simulates :
      (ym : String) (v : ℤ)
      → Simulates view (Dao.clamp_negative redis ym v) (Dao.clamp_negative documented ym v)
  unfolding Dao.clamp_negative
  clamp_negative-Simulates ym v =
      if-Simulates view (ltb_ℤ v (pos 0)) _ _ _ _
        (>>=-Simulates view _ _ _ _ (law.set_sim ym (pos 0)) (λ _. pure-Simulates view (pos 0)))
        (pure-Simulates view v)

  decrement_month-Simulates :
      (ym : String) (n : ℤ)
      → Simulates view (Dao.decrement_month redis ym n) (Dao.decrement_month documented ym n)
  unfolding Dao.decrement_month
  decrement_month-Simulates ym n =
      if-Simulates view (leb_ℤ n (pos 0)) _ _ _ _ (get_month_count-Simulates ym)
        (>>=-Simulates view _ _ _ _ (law.decrby_sim ym n) (clamp_negative-Simulates ym))

  add_touch-Simulates :
      (ym v : String) → Simulates view (Dao.add_touch redis ym v) (Dao.add_touch documented ym v)
  unfolding Dao.add_touch
  add_touch-Simulates ym v =
      >>=-Simulates view _ _ _ _ (law.sadd_sim ym v) (λ added.
        >>=-Simulates view _ _ _ _ (law.scard_sim ym) (λ n. pure-Simulates view (added, n)))

  get_quota_settings-Simulates :
      Simulates view (get_quota_settings redis) (get_quota_settings documented)
  unfolding get_quota_settings
  get_quota_settings-Simulates = record {
    same = λ s. ap (λ x. (settings_of x, view s)) (law.config_read s);
  }

  pub reserve_manual_slot-Simulates :
      (ym : String)
      → Simulates view (reserve_manual_slot redis ym) (reserve_manual_slot documented ym)
  unfolding reserve_manual_slot
  reserve_manual_slot-Simulates ym = >>=-Simulates view _ _ _ _ get_quota_settings-Simulates λ c.
      >>=-Simulates view _ _ _ _ (increment_month-Simulates ym (pos 1)) λ n.
        if-Simulates view (ltb_ℤ c.monthly_quota n) _ _ _ _
          (>>=-Simulates view _ _ _ _ (decrement_month-Simulates ym (pos 1))
            (λ _. pure-Simulates view (false, denied c ym)))
          (pure-Simulates view (true, snapshot_at c ym n))

  pub release_manual_slot-Simulates :
      (now : String) (ym : Option String)
      → Simulates view (release_manual_slot redis now ym) (release_manual_slot documented now ym)
  unfolding release_manual_slot
  release_manual_slot-Simulates now ym =
      >>=-Simulates view _ _ _ _ (decrement_month-Simulates (month_or ym now) (pos 1))
        (λ _. pure-Simulates view tt)

  record_new_venue_from_discovery-Simulates :
      (ym : String)
      → Simulates view
          (record_new_venue_from_discovery redis ym)
          (record_new_venue_from_discovery documented ym)
  unfolding record_new_venue_from_discovery
  record_new_venue_from_discovery-Simulates ym = increment_month-Simulates ym (pos 1)

  release_discovery_slot-Simulates :
      (now : String) (ym : Option String)
      → Simulates view
          (release_discovery_slot redis now ym)
          (release_discovery_slot documented now ym)
  unfolding release_discovery_slot
  release_discovery_slot-Simulates now ym =
      >>=-Simulates view _ _ _ _ (decrement_month-Simulates (month_or ym now) (pos 1))
        (λ _. pure-Simulates view tt)

  mark_touched-Simulates :
      (ym v : String) → Simulates view (mark_touched redis ym v) (mark_touched documented ym v)
  unfolding mark_touched
  mark_touched-Simulates ym v =
      >>=-Simulates view _ _ _ _ (add_touch-Simulates ym v) (λ _. pure-Simulates view tt)

  register_new-Simulates :
      (c : QuotaSettings) (ym v : String)
      → Simulates view (register_new redis c ym v) (register_new documented c ym v)
  unfolding register_new
  register_new-Simulates c ym v = >>=-Simulates view _ _ _ _ (add_touch-Simulates ym v) λ r.
      if-Simulates view (not r.0) _ _ _ _ (pure-Simulates view true) (
        if-Simulates view (ltb_ℤ c.monthly_quota (pos r.1)) _ _ _ _
          (>>=-Simulates view _ _ _ _ (law.srem_sim ym v) (λ _. pure-Simulates view false))
          (pure-Simulates view true))

  pub try_register_touch-Simulates :
      (ym v : String)
      → Simulates view (try_register_touch redis ym v) (try_register_touch documented ym v)
  unfolding try_register_touch Dao.is_touched
  try_register_touch-Simulates ym v = >>=-Simulates view _ _ _ _ get_quota_settings-Simulates λ c.
      >>=-Simulates view _ _ _ _ (law.sismember_sim ym v) λ seen.
        if-Simulates view seen _ _ _ _ (pure-Simulates view true) (register_new-Simulates c ym v)

  get_snapshot-Simulates :
      (ym : String) → Simulates view (get_snapshot redis ym) (get_snapshot documented ym)
  unfolding get_snapshot
  get_snapshot-Simulates ym = >>=-Simulates view _ _ _ _ get_quota_settings-Simulates λ c.
      >>=-Simulates view _ _ _ _ (get_month_count-Simulates ym)
        (λ n. pure-Simulates view (snapshot_at c ym n))

  pub get_refresh_budget-Simulates :
      Simulates view (get_refresh_budget redis) (get_refresh_budget documented)
  unfolding get_refresh_budget
  get_refresh_budget-Simulates =
      >>=-Simulates view _ _ _ _ get_quota_settings-Simulates
        (λ c. pure-Simulates view (max_ℤ (pos 0) (c.monthly_quota -ℤ c.manual_reserve)))

-- Every operation of the service on every months and venue, as a pair of an answer and the keys after.
pub record RefinesKeys {S : Type 0} (redis : Redis S) (view : S → Keys) : Type 0 where
  pub refresh_budget : Simulates view (get_refresh_budget redis) (get_refresh_budget documented)
  pub snapshot : (ym : String) → Simulates view (get_snapshot redis ym) (get_snapshot documented ym)
  pub touch :
      (ym v : String)
      → Simulates view (try_register_touch redis ym v) (try_register_touch documented ym v)
  pub mark :
      (ym v : String) → Simulates view (mark_touched redis ym v) (mark_touched documented ym v)
  pub reserve :
      (ym : String)
      → Simulates view (reserve_manual_slot redis ym) (reserve_manual_slot documented ym)
  pub release :
      (now : String) (ym : Option String)
      → Simulates view (release_manual_slot redis now ym) (release_manual_slot documented now ym)
  pub discover :
      (ym : String)
      → Simulates view
          (record_new_venue_from_discovery redis ym)
          (record_new_venue_from_discovery documented ym)
  pub undo :
      (now : String) (ym : Option String)
      → Simulates view
          (release_discovery_slot redis now ym)
          (release_discovery_slot documented now ym)

-- On a client that behaves as Redis documents, each operation of the budget service that reads or
-- changes keys gives the same answer, errors included, and leaves the same keys as the operation on
-- the keys themselves.
pub service-RefinesKeys :
    {S : Type 0} (redis : Redis S) (view : S → Keys) → IsRedis redis view → RefinesKeys redis view
service-RefinesKeys redis view law = record {
  refresh_budget = get_refresh_budget-Simulates redis view law;
  snapshot = get_snapshot-Simulates redis view law;
  touch = try_register_touch-Simulates redis view law;
  mark = mark_touched-Simulates redis view law;
  reserve = reserve_manual_slot-Simulates redis view law;
  release = release_manual_slot-Simulates redis view law;
  discover = record_new_venue_from_discovery-Simulates redis view law;
  undo = release_discovery_slot-Simulates redis view law;
}
