-- ===== src/Jobs/Lock.antt =====
-- app/services/job_lock.py: the set of running jobs, with the triggers of
-- app/routers/admin_trigger_router.py and the guard of the scheduler in main.py.
pub mod Exclusive
use cs_server.Prelude.{
  String, ◌≡◌, ap, subst, str_eq_sym, not, ◌&&◌, Option, none, some, ◌||◌, refl, sym, remove-absent,
  ◌∙◌, inl, inr, Bool, true, false, List, [], ◌∷◌, arith, str_eq, eq_iff, elem, Distinct, remove,
  elem-remove, Bool-cases, if◌then◌else◌,
}

unfoldable pub is_running : String → List String → Bool
is_running job running = elem job running

-- The answer, and the set afterwards.
unfoldable pub try_acquire : String → List String → Bool × List String
try_acquire job running = if elem job running then (false, running) else (true, job ∷ running)

unfoldable pub release : String → List String → List String
release job running = remove job running

-- The jobs that the lock guards.
abbrev pub locked_job_names : List String
locked_job_names = "live_forecast" ∷ "weekly_forecast" ∷ "google_places" ∷ "rebuild_redis" ∷ []

-- The jobs that an administrator can trigger.
abbrev pub job_registry : List String
job_registry =
    "live_forecast" ∷ "weekly_forecast" ∷ "google_places" ∷ "google_places_backfill" ∷ "instagram"
    ∷ "instagram_posts" ∷ "venue_photo_archive" ∷ "menu_photos" ∷ "menu_extraction"
    ∷ "vibe_classifier" ∷ "instagram_validate" ∷ "inventory_sync" ∷ "rebuild_redis"
    ∷ "event_targeting" ∷ "event_extraction" ∷ "promoter_discovery" ∷ "promoter_event_crawl" ∷ []

unfoldable pub is_locked : String → Bool
is_locked job = elem job locked_job_names

unfoldable pub is_registered : String → Bool
is_registered job = elem job job_registry

-- The lock's set, the keys of the administrators' `_running_jobs`, and the names whose lock a run of
-- the scheduler has acquired and not released.
pub record World : Type 0 where
  pub running : List String
  pub by_admin : List String
  pub by_scheduler : List String

-- One run of the scheduler ends.
abbrev pub drop_one : String → List String → List String
drop_one job [] = []
drop_one job (j ∷ js) = let rest = drop_one job js in if str_eq job j then js else j ∷ rest

-- An administrator's trigger. A job outside the lock's names starts without it.
abbrev pub trigger : String → World → World
trigger job w =
    let r = try_acquire job w.running in
    if not (is_registered job) || elem job w.by_admin
    then w
    else (if is_locked job
        then (if r.0 then record w { running = r.1; by_admin = job ∷ w.by_admin } else w)
        else record w { by_admin = job ∷ w.by_admin })

-- The end of an administrator's run: `_running_jobs.pop`, and the lock where the job has one.
abbrev pub finish : String → World → World
finish job w = record w {
  running = if is_locked job then release job w.running else w.running;
  by_admin = remove job w.by_admin;
}

-- The scheduler starts a run; one without a lock name leaves all this as it is.
abbrev pub schedule : Option String → World → World
schedule none w = w
schedule (some lock) w =
    let r = try_acquire lock w.running in
    if r.0 then record w { running = r.1; by_scheduler = lock ∷ w.by_scheduler } else w

abbrev pub finish_scheduled : String → World → World
finish_scheduled lock w = record w {
  running = release lock w.running;
  by_scheduler = drop_one lock w.by_scheduler;
}

-- A run that ends is one that is under way.
pub data Step : World → World → Type 0 where
  triggered : (w : World) (job : String) → Step w (trigger job w)
  finished : (w : World) (job : String) → elem job w.by_admin ≡ true → Step w (finish job w)
  scheduled : (w : World) (lock : Option String) → Step w (schedule lock w)
  ended :
      (w : World) (lock : String)
      → elem lock w.by_scheduler ≡ true
      → Step w (finish_scheduled lock w)

pub data Reach : World → World → Type 0 where
  here : {w : World} → Reach w w
  next : {w v x : World} → Reach w v → Step v x → Reach w x

-- The administrators run no job twice at once and the scheduler no lock twice at once; no locked job
-- is run by both at once; and the set says which locks are taken.
pub record IsExclusive (w : World) : Type 0 where
  pub admin_once : Distinct w.by_admin
  pub scheduler_once : Distinct w.by_scheduler
  pub apart :
      (job : String) → (is_locked job && elem job w.by_admin && elem job w.by_scheduler) ≡ false
  pub agree :
      (job : String)
      → is_running job w.running ≡ (elem job w.by_scheduler || is_locked job && elem job w.by_admin)
