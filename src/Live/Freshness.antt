-- ===== src/Live/Freshness.antt =====
-- app/services/live_freshness.py. Instants are seconds; the parse of BestTime's text into one, by
-- `datetime.fromisoformat` and `strptime`, is a parameter.
use cs_server.Prelude.{
  ℕ, ◌+◌, ◌*◌, ◌/◌, ◌%◌, String, Option, none, some, List, [], ◌∷◌, ltb, if◌then◌else◌,
}
use cs_server.Prelude.Int.{ℤ, pos_part, ◌-ℤ◌, ltb_ℤ}
use cs_server.Python.Except.{Result, ok, raised}
use cs_server.Python.Json.{Json, to_int}
use cs_server.Live.Watch.{in_bounds, unwrap}

pub data Verdict : Type 0 where
  fresh stale unparseable : Verdict

-- `%A %Y-%m-%d %I:%M%p`, `%A %Y-%m-%d %H:%M:%S` and `%A %Y-%m-%d %H:%M`, tried in this order after
-- ISO 8601; each parser is `none` where Python raises `ValueError`.
abbrev Parser : Type 0
Parser = String → Option ℤ

unfoldable first_parse : List Parser → Parser
first_parse [] text = none
first_parse (p ∷ ps) text = elim (p text) [ none ↦ first_parse ps text | some t ↦ some t ]

-- A value that is no text, or a blank one, has no instant; `strip` is Python's.
unfoldable parse_gmttime : (String → String) → List Parser → Option String → Option ℤ
parse_gmttime strip parsers none = none
parse_gmttime strip parsers (some raw) = elim (strip raw) [
  | String.[] ↦ none
  | String.◌∷◌ c cs ↦ first_parse parsers (strip raw)
]

-- The verdict with the age in seconds.
unfoldable pub classify_live_freshness : Option ℤ → ℤ → ℤ → Verdict × Option ℤ
classify_live_freshness none now max_age = (unparseable, none)
classify_live_freshness (some generated) now max_age =
    let delta = now -ℤ generated in (if ltb_ℤ delta max_age then fresh else stale, some delta)

abbrev pub int_or_none : Result ℤ → Option ℤ
int_or_none (ok n) = some n
int_or_none (raised e) = none

unfoldable pub coerce_minutes : Json → Option ℤ
coerce_minutes raw = int_or_none (to_int (unwrap raw))

-- What the admin service gives: there is no service, its read fails, or a value (`null` for none).
pub data AdminRead : Type 0 where
  no_service failed : AdminRead
  value : Json → AdminRead

abbrev pub bounded_or : ℤ → Option ℤ → ℤ
bounded_or d none = d
bounded_or d (some n) = if in_bounds n then n else d

unfoldable pub resolve_refresh_minutes : ℤ → AdminRead → ℤ
resolve_refresh_minutes default no_service = default
resolve_refresh_minutes default failed = default
resolve_refresh_minutes default (value raw) = bounded_or default (coerce_minutes raw)

-- `round` of a fraction of naturals: to the nearest, a half to the even neighbour.
unfoldable pub round_half_even : ℕ → ℕ → ℕ
round_half_even n d =
    let q = n / d in
    let r = 2 * (n % d) in if ltb r d then q else (if ltb d r then q + 1 else q + q % 2)

-- The factor is the fraction `num / den`.
unfoldable pub resolve_max_age_minutes : ℤ → ℕ → ℕ → ℕ → AdminRead → ℕ
resolve_max_age_minutes default num den floor read =
    let window = round_half_even (num * pos_part (resolve_refresh_minutes default read)) den in
    if ltb floor window then window else floor
