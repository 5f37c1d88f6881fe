-- ===== src/Dates/Ends.antt =====
-- The end of an event: where the range wraps past midnight it is on the next day.
use cs_server.Prelude.{
  ◌+◌, ◌*◌, ◌≡◌, refl, inl, inr, ◌≤◌, ◌<◌, true, false, Option, none, some, Bool-cases, arith,
}
use cs_server.Python.Except.{Holds, ok-Holds, and_then-Holds}
use cs_server.Python.Date.{Date, add_days, ordinal}
use cs_server.Python.Date.Ordinal.{IsDate, add_days-ordinal}
use cs_server.Dates.Resolve.{Time}
use cs_server.Dates.Event.{Instant, minutes, time_le, at_time, end_of}
use cs_server.Dates.Times.{IsTime, OptTime}

minutes_on : (i : Instant) → minutes i ≡ ordinal i.date * 1440 + i.hour * 60 + i.minute
unfolding minutes
minutes_on i = refl

-- An end after its start, by a day at most.
pub record IsEnd (start end : Instant) : Type 0 where
  pub real : IsDate end.date
  pub later : minutes start < minutes end
  pub within : minutes end ≤ minutes start + 1440

abbrev pub OptEnd : Instant → Option Instant → Type 0
OptEnd start none = Unit
OptEnd start (some e) = IsEnd start e

same_day :
    (d : Date) (s t : Time)
    → IsDate d
    → IsTime s
    → IsTime t
    → time_le t s ≡ false
    → IsEnd (at_time d s) (at_time d t)
same_day d s t v a b h = record {
  real = v;
  later = rw (minutes_on (at_time d s), minutes_on (at_time d t)) (ground arith);
  within = rw (minutes_on (at_time d s), minutes_on (at_time d t)) (ground arith);
}

day_after :
    (d e : Date) (s t : Time)
    → IsDate e
    → ordinal e ≡ ordinal d + 1
    → IsTime s
    → IsTime t
    → time_le t s ≡ true
    → IsEnd (at_time d s) (at_time e t)
day_after d e s t v o a b h = record {
  real = v;
  later = rw (minutes_on (at_time d s), minutes_on (at_time e t), o) (ground arith);
  within = rw (minutes_on (at_time d s), minutes_on (at_time e t), o) (ground arith);
}

pub end_of-OptEnd :
    (d : Date) (s : Time) (t : Option Time)
    → IsDate d
    → IsTime s
    → OptTime t
    → Holds (OptEnd (at_time d s)) (end_of d s t)
unfolding end_of
end_of-OptEnd d s none v a b = ok-Holds none tt
end_of-OptEnd d s (some t) v a b = elim (Bool-cases (time_le t s)) [
  | inl h ↦ rw h (
      and_then-Holds {P = λ e. IsDate e × (ordinal e ≡ ordinal d + 1)} (add_days 1 d) _
        (record { of_value = λ e r. add_days-ordinal 1 d e v r })
        (λ e k. ok-Holds _ (day_after d e s t k.0 k.1 a b h)))
  | inr h ↦ rw h (ok-Holds _ (same_day d s t v a b h))
]
