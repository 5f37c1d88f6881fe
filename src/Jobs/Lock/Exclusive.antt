-- ===== src/Jobs/Lock/Exclusive.antt =====
-- What the lock and the administrators' own check exclude.
use cs_server.Prelude.{
  String, ◌≡◌, ap, subst, str_eq_sym, not, ◌&&◌, Option, none, some, ◌||◌, refl, sym, remove-absent,
  ◌∙◌, inl, inr, Bool, true, false, List, [], ◌∷◌, arith, str_eq, eq_iff, elem, Distinct, remove,
  elem-remove, Bool-cases, if◌then◌else◌,
}
use cs_server.Jobs.Lock.{
  is_running, try_acquire, release, is_locked, is_registered, World, drop_one, trigger, finish,
  schedule, finish_scheduled, Step, triggered, finished, scheduled, ended, Reach, here, next,
  IsExclusive,
}

drop_one-remove : (job : String) (js : List String) → Distinct js → drop_one job js ≡ remove job js
drop_one-remove job [] h = refl
drop_one-remove job (j ∷ js) (n, h) =
    ground (arith, drop_one-remove job js h, remove-absent j js n, eq_iff job j)

elem-drop_one :
    (job k : String) (js : List String)
    → Distinct js
    → elem k (drop_one job js) ≡ (if str_eq job k then false else elem k js)
elem-drop_one job k js h = ap (elem k) (drop_one-remove job js h) ∙ elem-remove job k js

drop_one-Distinct : (job : String) (js : List String) → Distinct js → Distinct (drop_one job js)
drop_one-Distinct job [] h = tt
drop_one-Distinct job (j ∷ js) (n, h) = elim (Bool-cases (str_eq job j)) [
  | inl same ↦ rw same h
  | inr other ↦ rw other (ground (arith, elem-drop_one job j js h), drop_one-Distinct job js h)
]

remove-Distinct : (job : String) (js : List String) → Distinct js → Distinct (remove job js)
remove-Distinct job js h = subst Distinct (drop_one-remove job js h) (drop_one-Distinct job js h)

-- What the invariant says of one job: whether it has a lock, and whether an administrator's run, a
-- scheduled run and the set have it.
abbrev Fits : Bool → Bool → Bool → Bool → Type 0
Fits locked admin sched held =
    ((locked && admin && sched) ≡ false) × (held ≡ (sched || locked && admin))

Fits-acquired :
    (locked admin sched held : Bool)
    → held ≡ false
    → locked ≡ true
    → Fits locked admin sched held
    → Fits locked true sched true
Fits-acquired locked admin sched held f l (a, b) = (ground arith, ground arith)

Fits-open :
    (locked admin sched held : Bool)
    → locked ≡ false
    → Fits locked admin sched held
    → Fits locked true sched held
Fits-open locked admin sched held l (a, b) = (ground arith, ground arith)

Fits-scheduled :
    (locked admin sched held : Bool)
    → held ≡ false
    → Fits locked admin sched held
    → Fits locked admin true true
Fits-scheduled locked admin sched held f (a, b) = (ground arith, ground arith)

Fits-released :
    (locked admin sched held : Bool)
    → locked ≡ true
    → admin ≡ true
    → Fits locked admin sched held
    → Fits locked false sched false
Fits-released locked admin sched held l p (a, b) = (ground arith, ground arith)

Fits-left :
    (locked admin sched held : Bool)
    → locked ≡ false
    → Fits locked admin sched held
    → Fits locked false sched held
Fits-left locked admin sched held l (a, b) = (ground arith, ground arith)

Fits-ended :
    (locked admin sched held : Bool)
    → sched ≡ true
    → Fits locked admin sched held
    → Fits locked admin false false
Fits-ended locked admin sched held p (a, b) = (ground arith, ground arith)

unscheduled :
    (locked admin sched held : Bool) → held ≡ false → Fits locked admin sched held → sched ≡ false
unscheduled locked admin sched held f (a, b) = ground arith

abbrev FitsAt : World → String → Type 0
FitsAt w k = Fits (is_locked k) (elem k w.by_admin) (elem k w.by_scheduler) (elem k w.running)

-- The invariant, from what holds of each job.
exclusive :
    (w : World)
    → Distinct w.by_admin
    → Distinct w.by_scheduler
    → ((k : String) → FitsAt w k)
    → IsExclusive w
unfolding is_running
exclusive w a s f = record {
  admin_once = a;
  scheduler_once = s;
  apart = λ k. (f k).0;
  agree = λ k. (f k).1;
}

FitsAt-of : (w : World) → IsExclusive w → (k : String) → FitsAt w k
unfolding is_running
FitsAt-of w h k = (h.apart k, h.agree k)

-- What holds of a job holds of one with the same name.
of_same : (P : String → Type 0) (k job : String) → str_eq k job ≡ true → P job → P k
of_same P k job e h = subst P (sym ((eq_iff k job).0 e)) h

acquired :
    (job : String) (w : World)
    → IsExclusive w
    → is_locked job ≡ true
    → elem job w.running ≡ false
    → (k : String) → FitsAt (record w { running = job ∷ w.running; by_admin = job ∷ w.by_admin }) k
acquired job w h locked free k = elim (Bool-cases (str_eq k job)) [
  | inl same ↦ rw same (
      Fits-acquired (is_locked k) (elem k w.by_admin) (elem k w.by_scheduler) (elem k w.running)
        (of_same (λ x. elem x w.running ≡ false) k job same free)
        (of_same (λ x. is_locked x ≡ true) k job same locked) (FitsAt-of w h k))
  | inr other ↦ rw other (FitsAt-of w h k)
]

started_open :
    (job : String) (w : World)
    → IsExclusive w
    → is_locked job ≡ false
    → (k : String) → FitsAt (record w { by_admin = job ∷ w.by_admin }) k
started_open job w h unlocked k = elim (Bool-cases (str_eq k job)) [
  | inl same ↦ rw same (
      Fits-open (is_locked k) (elem k w.by_admin) (elem k w.by_scheduler) (elem k w.running)
        (of_same (λ x. is_locked x ≡ false) k job same unlocked) (FitsAt-of w h k))
  | inr other ↦ rw other (FitsAt-of w h k)
]

not_refused : (a b : Bool) → (not a || b) ≡ false → b ≡ false
not_refused a b h = ground arith

trigger-IsExclusive : (job : String) (w : World) → IsExclusive w → IsExclusive (trigger job w)
unfolding try_acquire
trigger-IsExclusive job w h = elim (Bool-cases (not (is_registered job) || elem job w.by_admin)) [
  | inl refused ↦ rw refused h
  | inr fresh ↦
      let once : Distinct (job ∷ w.by_admin) =
        (not_refused (is_registered job) (elem job w.by_admin) fresh, h.admin_once) in
      elim (Bool-cases (is_locked job)) [
        | inl locked ↦ elim (Bool-cases (elem job w.running)) [
          | inl held ↦ rw (fresh, locked, held) h
          | inr free ↦
              rw (fresh, locked, free)
                (exclusive _ once h.scheduler_once (acquired job w h locked free))
        ]
        | inr unlocked ↦
            rw (fresh, unlocked) (exclusive _ once h.scheduler_once (started_open job w h unlocked))
      ]
]

finish-FitsAt :
    (job : String) (w : World)
    → elem job w.by_admin ≡ true
    → IsExclusive w
    → (k : String) → FitsAt (finish job w) k
unfolding release
finish-FitsAt job w a h k = elim (Bool-cases (str_eq k job)) [
  | inl same ↦
      let back : str_eq job k ≡ true = str_eq_sym job k ∙ same in
      elim (Bool-cases (is_locked job)) [
        | inl locked ↦
            rw (locked, elem-remove job k w.by_admin, elem-remove job k w.running, back)
              (Fits-released (is_locked k) (elem k w.by_admin) (elem k w.by_scheduler)
                (elem k w.running) (of_same (λ x. is_locked x ≡ true) k job same locked)
                (of_same (λ x. elem x w.by_admin ≡ true) k job same a) (FitsAt-of w h k))
        | inr unlocked ↦
            rw (unlocked, elem-remove job k w.by_admin, back)
              (Fits-left (is_locked k) (elem k w.by_admin) (elem k w.by_scheduler)
                (elem k w.running) (of_same (λ x. is_locked x ≡ false) k job same unlocked)
                (FitsAt-of w h k))
      ]
  | inr other ↦
      let back : str_eq job k ≡ false = str_eq_sym job k ∙ other in
      elim (Bool-cases (is_locked job)) [
        | inl locked ↦
            rw (locked, elem-remove job k w.by_admin, elem-remove job k w.running, back)
              (FitsAt-of w h k)
        | inr unlocked ↦ rw (unlocked, elem-remove job k w.by_admin, back) (FitsAt-of w h k)
      ]
]

schedule-FitsAt :
    (lock : String) (w : World)
    → IsExclusive w
    → elem lock w.running ≡ false
    → (k : String)
    → FitsAt (record w { running = lock ∷ w.running; by_scheduler = lock ∷ w.by_scheduler }) k
schedule-FitsAt lock w h free k = elim (Bool-cases (str_eq k lock)) [
  | inl same ↦ rw same (
      Fits-scheduled (is_locked k) (elem k w.by_admin) (elem k w.by_scheduler) (elem k w.running)
        (of_same (λ x. elem x w.running ≡ false) k lock same free) (FitsAt-of w h k))
  | inr other ↦ rw other (FitsAt-of w h k)
]

finish_scheduled-FitsAt :
    (lock : String) (w : World)
    → elem lock w.by_scheduler ≡ true
    → IsExclusive w
    → (k : String) → FitsAt (finish_scheduled lock w) k
unfolding release
finish_scheduled-FitsAt lock w a h k = elim (Bool-cases (str_eq k lock)) [
  | inl same ↦
      let back : str_eq lock k ≡ true = str_eq_sym lock k ∙ same in
      rw (elem-drop_one lock k w.by_scheduler h.scheduler_once, elem-remove lock k w.running, back)
        (Fits-ended (is_locked k) (elem k w.by_admin) (elem k w.by_scheduler) (elem k w.running)
          (of_same (λ x. elem x w.by_scheduler ≡ true) k lock same a) (FitsAt-of w h k))
  | inr other ↦
      let back : str_eq lock k ≡ false = str_eq_sym lock k ∙ other in
      rw (elem-drop_one lock k w.by_scheduler h.scheduler_once, elem-remove lock k w.running, back)
        (FitsAt-of w h k)
]

finish-IsExclusive :
    (job : String) (w : World)
    → elem job w.by_admin ≡ true
    → IsExclusive w
    → IsExclusive (finish job w)
unfolding release
finish-IsExclusive job w a h =
    exclusive (finish job w) (remove-Distinct job w.by_admin h.admin_once) h.scheduler_once
      λ k. finish-FitsAt job w a h k

schedule-IsExclusive :
    (lock : Option String) (w : World) → IsExclusive w → IsExclusive (schedule lock w)
unfolding try_acquire
schedule-IsExclusive none w h = h
schedule-IsExclusive (some lock) w h = elim (Bool-cases (elem lock w.running)) [
  | inl held ↦ rw held h
  | inr free ↦ rw free (
      exclusive _ h.admin_once
        (
          unscheduled (is_locked lock) (elem lock w.by_admin) (elem lock w.by_scheduler)
              (elem lock w.running) free (FitsAt-of w h lock),
          h.scheduler_once,
        )
        (schedule-FitsAt lock w h free))
]

finish_scheduled-IsExclusive :
    (lock : String) (w : World)
    → elem lock w.by_scheduler ≡ true
    → IsExclusive w
    → IsExclusive (finish_scheduled lock w)
unfolding release
finish_scheduled-IsExclusive lock w a h =
    exclusive (finish_scheduled lock w) h.admin_once
      (drop_one-Distinct lock w.by_scheduler h.scheduler_once)
      λ k. finish_scheduled-FitsAt lock w a h k

Step-IsExclusive : {w v : World} → Step w v → IsExclusive w → IsExclusive v
Step-IsExclusive (triggered w job) h = trigger-IsExclusive job w h
Step-IsExclusive (finished w job a) h = finish-IsExclusive job w a h
Step-IsExclusive (scheduled w lock) h = schedule-IsExclusive lock w h
Step-IsExclusive (ended w lock a) h = finish_scheduled-IsExclusive lock w a h

-- From a state in which it holds, whatever triggers and ends there are, in whatever order: no two runs
-- that administrators triggered are of one job, no two scheduled runs have one lock, none of the jobs
-- that the lock guards is run by an administrator and by the scheduler at once, and `is_running` tells
-- for each of them whether a run has it. For the other jobs the lock promises nothing.
pub Reach-IsExclusive : {w v : World} → IsExclusive w → Reach w v → IsExclusive v
Reach-IsExclusive h here = h
Reach-IsExclusive h (next r s) = Step-IsExclusive s (Reach-IsExclusive h r)
