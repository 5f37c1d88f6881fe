-- ===== src/Live/Watch.antt =====
-- `RefreshIntervalWatcher` of app/services/refresh_interval_watch.py. `json.loads` is a parameter; the
-- value is read as text, and metrics are left out.
pub mod Laws
use cs_server.Prelude.{
  String, Bool, true, false, not, ◌&&◌, Option, none, some, str_eq, if◌then◌else◌,
}
use cs_server.Prelude.Int.{ℤ, pos, leb_ℤ}
use cs_server.Python.Json.{Json, Fields, null, int, obj, get}

abbrev pub min_refresh_minutes : ℤ
min_refresh_minutes = pos 1

abbrev pub max_refresh_minutes : ℤ
max_refresh_minutes = pos 120

abbrev pub in_bounds : ℤ → Bool
in_bounds n = leb_ℤ min_refresh_minutes n && leb_ℤ n max_refresh_minutes

pub record Watcher : Type 0 where
  pub default : ℤ
  pub applied : ℤ
  pub last_rejected : Option String

-- What one check does besides changing the state: a warning, a new schedule, or nothing.
pub data Action : Type 0 where
  quiet : Action
  warn : Action
  reschedule : ℤ → Action

abbrev pub or_null : Option Json → Json
or_null none = null
or_null (some v) = v

-- `{"minutes": N}` is read as N.
abbrev pub unwrap : Json → Json
unwrap (obj fs) = or_null (get "minutes" fs)
unwrap v = v

-- Only an integer within the bounds counts; a bool is none.
abbrev pub accept : Json → Option ℤ
accept (int n) = if in_bounds n then some n else none
accept _ = none

unfoldable pub parse_minutes : Option Json → Option ℤ
parse_minutes none = none
parse_minutes (some v) = accept (unwrap v)

abbrev pub is_last : String → Option String → Bool
is_last raw none = false
is_last raw (some r) = str_eq raw r

abbrev pub apply_minutes : ℤ → Watcher → Watcher × Action
apply_minutes n w =
    if leb_ℤ n w.applied && leb_ℤ w.applied n
    then (record w { last_rejected = none }, quiet)
    else (record w { applied = n; last_rejected = none }, reschedule n)

abbrev pub judge : String → Option ℤ → Watcher → Watcher × Action
judge raw none w =
    if is_last raw w.last_rejected
    then (w, quiet)
    else (record w { last_rejected = some raw }, warn)
judge raw (some n) w = apply_minutes n w

module _ (loads : String → Option Json) where
  unfoldable pub check_once : Option String → Watcher → Watcher × Action
  check_once none w = apply_minutes w.default w
  check_once (some raw) w = judge raw (parse_minutes (loads raw)) w
