-- ===== src/Budget/Counter.antt =====
-- The monthly counter under reservations and releases, on any client that behaves as Redis documents.
use Prim.Native.Nat.{min}
use cs_server.Prelude.{
  ℕ, zero, suc, ◌+◌, ◌-◌, ◌≤◌, ◌<◌, String, ◌≡◌, ◌≢◌, ◌∙◌, Bool, true, false, none, arith, eq_refl,
  eq_iff, ltb, if◌then◌else◌,
}
use cs_server.Prelude.Int.{pos, ◌+ℤ◌, ◌-ℤ◌}
use cs_server.Python.Except.{Result, ok}
use cs_server.Budget.Redis.{Redis, Keys, count, documented}
use cs_server.Budget.Redis.Simulation.{IsRedis, answers, keys_after}
use cs_server.Budget.Service.{
  QuotaSettings, BudgetSnapshot, settings_of, denied, snapshot_at, reserve_manual_slot,
  release_manual_slot,
}
use cs_server.Budget.Refinement.{reserve_manual_slot-Simulates, release_manual_slot-Simulates}

module _ (ym : String) (s : Keys) (n q : ℕ) (c : QuotaSettings)
    (config : settings_of s.config ≡ ok c) (quota : c.monthly_quota ≡ pos q)
    (counter : s.counters ym ≡ count (pos n)) where
  keys_result :
      (reserve_manual_slot documented ym s).0
      ≡ ok (if ltb n q then (true, snapshot_at c ym (pos (n + 1))) else (false, denied c ym))
  unfolding reserve_manual_slot ◌+ℤ◌ ◌-ℤ◌
  keys_result = ground (arith, eq_refl ym)

  keys_counter :
      (reserve_manual_slot documented ym s).1.counters ym
      ≡ count (pos (if ltb n q then n + 1 else n))
  unfolding reserve_manual_slot ◌+ℤ◌ ◌-ℤ◌
  keys_counter = ground (arith, eq_refl ym)

  keys_release :
      n < q
      → (release_manual_slot documented ym none (reserve_manual_slot documented ym s).1).1.counters
          ym
        ≡ count (pos n)
  unfolding reserve_manual_slot release_manual_slot ◌+ℤ◌ ◌-ℤ◌
  keys_release l = ground (arith, eq_refl ym)

keys_config : (ym : String) (s : Keys) → (reserve_manual_slot documented ym s).1.config ≡ s.config
unfolding reserve_manual_slot
keys_config ym s = ground arith

keys_other :
    (ym : String) (s : Keys) (j : String)
    → ym ≢ j
    → (reserve_manual_slot documented ym s).1.counters j ≡ s.counters j
unfolding reserve_manual_slot
keys_other ym s j d = ground (arith, eq_iff ym j)

abbrev tally : Result (Bool × BudgetSnapshot) → ℕ → ℕ
tally (ok (true, snap)) g = suc g
tally _ g = g

-- One attempt after another, with the number of grants.
pub reserve_times : {S : Type 0} → Redis S → ℕ → String → S → ℕ × S
reserve_times redis zero ym s = (0, s)
reserve_times redis (suc k) ym s =
    let (g, t) = reserve_times redis k ym (reserve_manual_slot redis ym s).1 in
    (tally (reserve_manual_slot redis ym s).0 g, t)

module _ {S : Type 0} (redis : Redis S) (view : S → Keys) (law : IsRedis redis view) where
  reserve_keys :
      (ym : String) (s : S)
      → view (reserve_manual_slot redis ym s).1 ≡ (reserve_manual_slot documented ym (view s)).1
  reserve_keys ym = keys_after view _ _ (reserve_manual_slot-Simulates redis view law ym)

  -- On a client that behaves as Redis documents, with settings that can be read and a counter n, a
  -- slot is granted exactly where n is below the quota; a grant leaves the counter one higher and a
  -- denial leaves it as it was; each comes with its snapshot, and no other month changes.
  reserve_manual_slot_exact :
      (ym : String) (s : S) (n q : ℕ) (c : QuotaSettings)
      → settings_of (view s).config ≡ ok c
      → c.monthly_quota ≡ pos q
      → (view s).counters ym ≡ count (pos n)
      → let r = reserve_manual_slot redis ym s in
        (r.0
          ≡ ok (if ltb n q then (true, snapshot_at c ym (pos (n + 1))) else (false, denied c ym)))
        × ((view r.1).counters ym ≡ count (pos (if ltb n q then n + 1 else n)))
        × ((j : String) → ym ≢ j → (view r.1).counters j ≡ (view s).counters j)
  reserve_manual_slot_exact ym s n q c h k e = (
    answers view _ _ (reserve_manual_slot-Simulates redis view law ym) s
        ∙ keys_result ym (view s) n q c h k e,
    rw (reserve_keys ym s) (keys_counter ym (view s) n q c h k e),
    λ j d. rw (reserve_keys ym s) (keys_other ym (view s) j d),
  )

  -- On a client that behaves as Redis documents, with settings that can be read, of k attempts at a
  -- counter n within the quota q exactly min(k, q - n) are granted, and the counter ends at
  -- min(n + k, q): manual adds never pass the quota, and no slot within it is refused.
  pub reserve_times_exact :
      (k : ℕ) (ym : String) (s : S) (n q : ℕ) (c : QuotaSettings)
      → settings_of (view s).config ≡ ok c
      → c.monthly_quota ≡ pos q
      → (view s).counters ym ≡ count (pos n)
      → n ≤ q
      → ((reserve_times redis k ym s).0 ≡ min k (q - n))
        × ((view (reserve_times redis k ym s).1).counters ym ≡ count (pos (min (n + k) q)))
  unfolding reserve_times
  reserve_times_exact zero ym s n q c h p e l = (omega arith, rw e (ground arith))
  reserve_times_exact (suc k) ym s n q c h p e l =
      let t = (reserve_manual_slot redis ym s).1 in
      let m : ℕ = if ltb n q then n + 1 else n in
      let once = reserve_manual_slot_exact ym s n q c h p e in
      let ih =
        reserve_times_exact k ym t m q c (rw (reserve_keys ym s, keys_config ym (view s)) h) p
          once.1 (ground arith) in
      (ground (arith, once.0, ih.0), ground (arith, ih.1))

  -- On a client that behaves as Redis documents, with settings that can be read and a counter below
  -- the quota, a slot that is reserved and released in the same month leaves the counter as it was.
  release-reserve :
      (ym : String) (s : S) (n q : ℕ) (c : QuotaSettings)
      → settings_of (view s).config ≡ ok c
      → c.monthly_quota ≡ pos q
      → (view s).counters ym ≡ count (pos n)
      → n < q
      → (view (release_manual_slot redis ym none (reserve_manual_slot redis ym s).1).1).counters ym
        ≡ count (pos n)
  release-reserve ym s n q c h p e l =
      let sim = release_manual_slot-Simulates redis view law ym none in
      rw (keys_after view _ _ sim (reserve_manual_slot redis ym s).1, reserve_keys ym s)
        (keys_release ym (view s) n q c h p e l)
