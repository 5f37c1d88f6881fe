-- ===== src/Python/Round.antt =====
-- `round(x, digits)` on a number of small units, of which `unit` make the last digit that stays: to
-- the nearest one, and from the middle to the even one.
use cs_server.Prelude.{ℕ, ◌+◌, ◌*◌, ◌/◌, ◌%◌, Bool, ◌&&◌, ◌||◌, ◌==◌, ltb, if◌then◌else◌}

abbrev rounds_up : ℕ → ℕ → ℕ → Bool
rounds_up unit q r = ltb unit (2 * r) || 2 * r == unit && q % 2 == 1

unfoldable pub round_to : ℕ → ℕ → ℕ
round_to unit x =
    let q = x / unit in let r = x % unit in (if rounds_up unit q r then q + 1 else q) * unit
