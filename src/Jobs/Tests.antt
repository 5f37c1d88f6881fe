-- ===== src/Jobs/Tests.antt =====
-- The theorems on jobs at concrete inputs.
use cs_server.Prelude.{◌<◌, ◌≡◌, refl, true, some, [], ◌∷◌, arith}
use cs_server.Python.Json.{codes}
use cs_server.Events.Merge.{points_lt}
use cs_server.Jobs.RunId.{Last, encode, nth, rand_max, new_run_id}
use cs_server.Jobs.RunId.Order.{new_run_id_rising}
use cs_server.Jobs.Lock.{
  World, here, next, triggered, scheduled, trigger, schedule, try_acquire, is_running, is_locked,
  is_registered, IsExclusive,
}
use cs_server.Jobs.Lock.Exclusive.{Reach-IsExclusive}

encode_run : encode 1025 4 ≡ codes "0101"
unfolding encode nth
encode_run = refl

abbrev last : Last
last = record { ms = 1767225600000; rand = 41 }

has_room : (new_run_id 1767225600000 7 last).1.rand < rand_max
unfolding new_run_id
has_room = omega arith

new_run_id_rising_example :
    points_lt
      (new_run_id 1767225600000 7 last).0
      (new_run_id 1767225600000 9 (new_run_id 1767225600000 7 last).1).0
    ≡ true
new_run_id_rising_example =
    new_run_id_rising 1767225600000 7 1767225600000 9 last (omega arith) (omega arith) has_room

abbrev idle : World
idle = record { running = []; by_admin = []; by_scheduler = [] }

idle-IsExclusive : IsExclusive idle
unfolding is_running
idle-IsExclusive = record {
  admin_once = tt;
  scheduler_once = tt;
  apart = λ job. ground arith;
  agree = λ job. ground arith;
}

-- The scheduler's run of a locked job, then an administrator's trigger of it, which is refused.
abbrev scheduled_first : World
scheduled_first = schedule (some "live_forecast") idle

refused_run : trigger "live_forecast" scheduled_first ≡ scheduled_first
unfolding try_acquire is_locked is_registered
refused_run = refl

-- A job without the lock starts, whatever the scheduler runs; a second trigger of it does not start.
unlocked_run :
    trigger "menu_photos" (trigger "menu_photos" scheduled_first)
    ≡ record scheduled_first { by_admin = "menu_photos" ∷ [] }
unfolding try_acquire is_locked is_registered
unlocked_run = refl

Reach-IsExclusive_example : IsExclusive (trigger "live_forecast" scheduled_first)
Reach-IsExclusive_example = Reach-IsExclusive idle-IsExclusive (
    next (next here (scheduled idle (some "live_forecast")))
      (triggered scheduled_first "live_forecast"))
