-- ===== src/Budget/Ledger.antt =====
-- The monthly ledger of touched venues, the hard ceiling on BestTime reads, on any
-- client that behaves as Redis documents.
use cs_server.Prelude.{
  ℕ, ◌≤◌, String, ◌≡◌, ◌∙◌, ◌⊎◌, inl, inr, Bool, true, false, ◌||◌, List, [], ◌∷◌, arith, eq_refl,
  eq_iff, ap, ltb, length, elem, remove-absent, Distinct, if◌then◌else◌,
}
use cs_server.Prelude.Int.{pos}
use cs_server.Python.Except.{Result, ok, raised}
use cs_server.Budget.Redis.{Redis, Keys, documented}
use cs_server.Budget.Redis.Simulation.{IsRedis, answers, keys_after}
use cs_server.Budget.Service.{QuotaSettings, settings_of, try_register_touch}
use cs_server.Budget.Refinement.{try_register_touch-Simulates}

-- The ledger of the month holds no venue twice and at most `q` venues.
pub record IsWithin (q : ℕ) (ym : String) (s : Keys) : Type 0 where
  pub distinct : Distinct (s.touched ym)
  pub within : length (s.touched ym) ≤ q

module _ (ym v : String) (s : Keys) (q : ℕ) (c : QuotaSettings)
    (config : settings_of s.config ≡ ok c) (quota : c.monthly_quota ≡ pos q) where
  keys_result :
      (try_register_touch documented ym v s).0
      ≡ ok (elem v (s.touched ym) || ltb (length (s.touched ym)) q)
  unfolding try_register_touch
  keys_result = ground (arith, eq_refl ym)

  keys_ledger : (try_register_touch documented ym v s).1.touched ym ≡ (
      if elem v (s.touched ym)
      then s.touched ym
      else (if ltb (length (s.touched ym)) q then v ∷ s.touched ym else s.touched ym))
  unfolding try_register_touch
  keys_ledger = ground (arith, eq_refl ym, eq_refl v, remove-absent v (s.touched ym))

keys_config :
    (ym v : String) (s : Keys) → (try_register_touch documented ym v s).1.config ≡ s.config
unfolding try_register_touch
keys_config ym v s = ground arith

abbrev admit : Result Bool → String → List String → List String
admit (ok true) v out = v ∷ out
admit _ v out = out

-- The reads of a refresh: each venue goes through the gate, and those admitted are read.
unfoldable pub gate_all : {S : Type 0} → Redis S → String → List String → S → List String × S
gate_all redis ym [] s = ([], s)
gate_all redis ym (v ∷ vs) s =
    let (out, t) = gate_all redis ym vs (try_register_touch redis ym v s).1 in
    (admit (try_register_touch redis ym v s).0 v out, t)

admit-elem :
    (r : Result Bool) (v u : String) (out : List String)
    → elem u (admit r v out) ≡ true
    → ((r ≡ ok true) × (u ≡ v)) ⊎ (elem u out ≡ true)
admit-elem (ok true) v u out m = ground (arith, eq_iff u v)
admit-elem (ok false) v u out m = inr m
admit-elem (raised e) v u out m = inr m

module _ {S : Type 0} (redis : Redis S) (view : S → Keys) (law : IsRedis redis view) where
  gate_keys :
      (ym v : String) (s : S)
      → view (try_register_touch redis ym v s).1 ≡ (try_register_touch documented ym v (view s)).1
  gate_keys ym v = keys_after view _ _ (try_register_touch-Simulates redis view law ym v)

  gate_config :
      (ym v : String) (s : S) → (view (try_register_touch redis ym v s).1).config ≡ (view s).config
  gate_config ym v s = rw (gate_keys ym v s) (keys_config ym v (view s))

  -- On a client that behaves as Redis documents, with settings that can be read and a ledger within
  -- the quota, the gate admits a venue exactly where it was touched before or the month has room, an
  -- admitted venue is in the ledger afterwards, a refused one leaves the ledger as it was, and the
  -- ledger stays within the quota.
  pub try_register_touch_gate :
      (ym v : String) (s : S) (q : ℕ) (c : QuotaSettings)
      → settings_of (view s).config ≡ ok c
      → c.monthly_quota ≡ pos q
      → IsWithin q ym (view s)
      → let r = try_register_touch redis ym v s in
        let ledger = (view s).touched ym in
        (r.0 ≡ ok (elem v ledger || ltb (length ledger) q))
        × (r.0 ≡ ok true → elem v ((view r.1).touched ym) ≡ true)
        × (r.0 ≡ ok false → (view r.1).touched ym ≡ ledger)
        × IsWithin q ym (view r.1)
  try_register_touch_gate ym v s q c h p w =
      let r =
        answers view _ _ (try_register_touch-Simulates redis view law ym v) s
        ∙ keys_result ym v (view s) q c h p in
      let l =
        ap (λ (k : Keys). k.touched ym) (gate_keys ym v s) ∙ keys_ledger ym v (view s) q c h p in
      (
        r,
        ground (arith, r, l, eq_refl v),
        ground (arith, r, l),
        record { distinct = rw l (ground arith); within = rw l (ground arith) },
      )

  -- The ledger only grows under the gate.
  gate_keeps :
      (ym v u : String) (s : S) (q : ℕ) (c : QuotaSettings)
      → settings_of (view s).config ≡ ok c
      → c.monthly_quota ≡ pos q
      → elem u ((view s).touched ym) ≡ true
      → elem u ((view (try_register_touch redis ym v s).1).touched ym) ≡ true
  gate_keeps ym v u s q c h p m =
      rw (gate_keys ym v s, keys_ledger ym v (view s) q c h p) (ground arith)

  gate_all_keeps :
      (ym u : String) (vs : List String) (s : S) (q : ℕ) (c : QuotaSettings)
      → settings_of (view s).config ≡ ok c
      → c.monthly_quota ≡ pos q
      → elem u ((view s).touched ym) ≡ true
      → elem u ((view (gate_all redis ym vs s).1).touched ym) ≡ true
  unfolding gate_all
  gate_all_keeps ym u [] s q c h p m = m
  gate_all_keeps ym u (v ∷ vs) s q c h p m =
      gate_all_keeps ym u vs (try_register_touch redis ym v s).1 q c (rw (gate_config ym v s) h) p
        (gate_keeps ym v u s q c h p m)

  -- On a client that behaves as Redis documents, with settings that can be read and a ledger that
  -- holds no venue twice and no more than the quota at the start: however many venues ask, in whatever
  -- order, every venue that is admitted in the month is in the ledger at the end, and the ledger stays
  -- so, thus the reads of a month touch at most `monthly_quota` distinct venues.
  pub gate_all_ceiling :
      (ym : String) (vs : List String) (s : S) (q : ℕ) (c : QuotaSettings)
      → settings_of (view s).config ≡ ok c
      → c.monthly_quota ≡ pos q
      → IsWithin q ym (view s)
      → let r = gate_all redis ym vs s in
        ((u : String) → elem u r.0 ≡ true → elem u ((view r.1).touched ym) ≡ true)
        × IsWithin q ym (view r.1)
  unfolding gate_all
  gate_all_ceiling ym [] s q c h p w = ((λ u m. cc), w)
  gate_all_ceiling ym (v ∷ vs) s q c h p w =
      let t = (try_register_touch redis ym v s).1 in
      let k : settings_of (view t).config ≡ ok c = rw (gate_config ym v s) h in
      let g = try_register_touch_gate ym v s q c h p w in
      let ih = gate_all_ceiling ym vs t q c k p g.3 in
      (
        λ u m.
            elim (admit-elem (try_register_touch redis ym v s).0 v u (gate_all redis ym vs t).0 m) [
              | inl a ↦ gate_all_keeps ym u vs t q c k p (rw a.1 (g.1 a.0))
              | inr b ↦ ih.0 u b
            ],
        ih.1,
      )
