-- ===== src/Budget/Redis/Simulation.antt =====
-- A client behaves as Redis documents: each call answers and changes the keys as `documented` does.
use cs_server.Prelude.{String, ◌≡◌, refl, ap, Bool, true, false, if◌then◌else◌}
use cs_server.Prelude.Int.{ℤ}
use cs_server.Python.Except.{Result, Exec, ok, raised, proceed, pure, ◌>>=◌}
use cs_server.Budget.Redis.{Redis, Keys, documented}

-- An action answers as another one does on what the keys hold, and leaves the keys as that does.
pub record Simulates {S A : Type 0} (view : S → Keys) (m : Exec S A) (m' : Exec Keys A)
    : Type 0 where
  pub same : (s : S) → ◌≡◌ ((m s).0, view (m s).1) (m' (view s))

-- Redis, seen through `view`.
pub record IsRedis {S : Type 0} (r : Redis S) (view : S → Keys) : Type 0 where
  pub config_read : (s : S) → r.get_config s ≡ (view s).config
  pub count_read : (ym : String) (s : S) → r.get ym s ≡ (view s).counters ym
  pub incrby_sim : (ym : String) (n : ℤ) → Simulates view (r.incrby ym n) (documented.incrby ym n)
  pub decrby_sim : (ym : String) (n : ℤ) → Simulates view (r.decrby ym n) (documented.decrby ym n)
  pub set_sim : (ym : String) (n : ℤ) → Simulates view (r.set ym n) (documented.set ym n)
  pub sismember_sim :
      (ym v : String) → Simulates view (r.sismember ym v) (documented.sismember ym v)
  pub scard_sim : (ym : String) → Simulates view (r.scard ym) (documented.scard ym)
  pub sadd_sim : (ym v : String) → Simulates view (r.sadd ym v) (documented.sadd ym v)
  pub srem_sim : (ym v : String) → Simulates view (r.srem ym v) (documented.srem ym v)

module _ {S : Type 0} (view : S → Keys) where
  pub pure-Simulates : {A : Type 0} (a : A) → Simulates view (pure a) (pure a)
  pure-Simulates a = record { same = λ s. refl }

  proceed-Simulates :
      {A B : Type 0} (x : Result A) (t : S) (k : A → Exec S B) (k' : A → Exec Keys B)
      → ((a : A) → Simulates view (k a) (k' a))
      → ◌≡◌ ((proceed x t k).0, view (proceed x t k).1) (proceed x (view t) k')
  proceed-Simulates (ok a) t k k' h = (h a).same t
  proceed-Simulates (raised e) t k k' h = refl

  pub >>=-Simulates :
      {A B : Type 0} (m : Exec S A) (m' : Exec Keys A) (k : A → Exec S B) (k' : A → Exec Keys B)
      → Simulates view m m'
      → ((a : A) → Simulates view (k a) (k' a))
      → Simulates view (m >>= k) (m' >>= k')
  >>=-Simulates m m' k k' h g = record {
    same = λ s. rw (← h.same s) (proceed-Simulates (m s).0 (m s).1 k k' g);
  }

  pub if-Simulates :
      {A : Type 0} (b : Bool) (m n : Exec S A) (m' n' : Exec Keys A)
      → Simulates view m m'
      → Simulates view n n'
      → Simulates view (λ s. (if b then m else n) s) (λ s. (if b then m' else n') s)
  if-Simulates true m n m' n' h g = h
  if-Simulates false m n m' n' h g = g

  pub answers :
      {A : Type 0} (m : Exec S A) (m' : Exec Keys A)
      → Simulates view m m'
      → (s : S) → (m s).0 ≡ (m' (view s)).0
  answers {A} m m' h s = ap (λ (p : Result A × Keys). p.0) (h.same s)

  pub keys_after :
      {A : Type 0} (m : Exec S A) (m' : Exec Keys A)
      → Simulates view m m'
      → (s : S) → view (m s).1 ≡ (m' (view s)).1
  keys_after {A} m m' h s = ap (λ (p : Result A × Keys). p.1) (h.same s)
