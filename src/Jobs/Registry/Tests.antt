-- ===== src/Jobs/Registry/Tests.antt =====
-- The ring at a concrete run, and what is published after some runs.
use cs_server.Prelude.{String, ◌≡◌, refl, none, some, [], ◌∷◌, arith}
use cs_server.Jobs.Registry.{Ring, Registry, register}
use cs_server.Jobs.Registry.Bounded.{IsRing, register-IsRing}

abbrev empty_ring : Ring
empty_ring = record { runs = []; gauge = λ a b. none }

abbrev fresh : Registry
fresh = record { size = 1; rings = λ p. empty_ring }

fresh-IsRing : (p : String) → IsRing 1 (fresh.rings p)
fresh-IsRing p = record {
  published = record { distinct = tt; exact = λ a b. refl };
  bounded = omega arith;
}

register-IsRing_example : IsRing 1 ((register "archive" "run_1" "running" 5 fresh).rings "archive")
register-IsRing_example = register-IsRing "archive" "run_1" "running" 5 fresh fresh-IsRing "archive"

abbrev two_runs : Registry
two_runs =
    register "archive" "run_2" "success" 7
      (register "archive" "run_2" "running" 7 (register "archive" "run_1" "running" 5 fresh))

-- The first run has left, and the second is there under its last status alone.
two_runs_shown :
    (two_runs.rings "archive").runs ≡ record { id = "run_2"; status = "success"; started = 7 } ∷ []
unfolding register
two_runs_shown = refl

two_runs_gauge :
    ((two_runs.rings "archive").gauge "run_1" "running" ≡ none)
    × (((two_runs.rings "archive").gauge "run_2" "running" ≡ none)
        × ((two_runs.rings "archive").gauge "run_2" "success" ≡ some 7))
unfolding register
two_runs_gauge = (refl, (refl, refl))
