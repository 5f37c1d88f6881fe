-- ===== src/Live/Tests.antt =====
-- The live gate's theorems at concrete inputs, and runs of its operations.
use cs_server.Prelude.{
  String, ◌≡◌, refl, inl, Option, none, some, List, [], str_eq, true, if◌then◌else◌, ◌∷◌,
}
use cs_server.Prelude.Int.{◌-ℤ◌, pos}
use cs_server.Python.Json.{Json, bool, int, str, obj, end, field, to_int, int_of_text, get}
use cs_server.Live.Watch.{Watcher, reschedule, warn, parse_minutes, check_once}
use cs_server.Live.Watch.Laws.{IsUsable, check_all, check_all-IsUsable}
use cs_server.Live.Freshness.{
  stale, classify_live_freshness, value, failed, coerce_minutes, resolve_refresh_minutes,
  round_half_even, resolve_max_age_minutes,
}

abbrev watcher : Watcher
watcher = record { default = pos 15; applied = pos 15; last_rejected = none }

-- A reader that takes the text "30" for 30 and any other for a bool.
abbrev loads : String → Option Json
loads text = if str_eq text "30" then some (int (pos 30)) else some (bool true)

new_interval :
    check_once loads (some "30") watcher
    ≡ (record watcher { applied = pos 30 }, reschedule (pos 30))
unfolding check_once parse_minutes
new_interval = refl

bad_value :
    check_once loads (some "true") watcher ≡ (record watcher { last_rejected = some "true" }, warn)
unfolding check_once parse_minutes
bad_value = refl

abbrev texts : List (Option String)
texts = some "30" ∷ some "true" ∷ none ∷ []

check_all-IsUsable_example : IsUsable (check_all loads texts watcher)
check_all-IsUsable_example = check_all-IsUsable loads texts watcher (inl refl)

abbrev panel : Json
panel = obj (field "minutes" (int (pos 30)) end)

panel_read : parse_minutes (some panel) ≡ some (pos 30)
unfolding parse_minutes get
panel_read = refl

-- A text of digits moves the window and not the refresher.
text_resolves : resolve_refresh_minutes (pos 15) (value (str "30")) ≡ pos 30
unfolding resolve_refresh_minutes coerce_minutes to_int int_of_text
text_resolves = refl

text_rejected : parse_minutes (some (str "30")) ≡ none
unfolding parse_minutes
text_rejected = refl

-- A factor of 5 / 2 on 15 minutes: 37.5 goes to the even 38.
half_to_even : resolve_max_age_minutes (pos 15) 5 2 10 failed ≡ 38
unfolding resolve_max_age_minutes resolve_refresh_minutes round_half_even
half_to_even = refl

-- An age of the whole window is stale.
at_the_edge : classify_live_freshness (some (pos 100)) (pos 160) (pos 60) ≡ (stale, some (pos 60))
unfolding classify_live_freshness ◌-ℤ◌
at_the_edge = refl
