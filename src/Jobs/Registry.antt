-- ===== src/Jobs/Registry.antt =====
-- `_BoundedRunRegistry` of app/services/pipeline_run_registry.py: the ring of runs of each pipeline, and
-- the label sets of the gauge that are published for it. The start of a run is a natural number.
pub mod Bounded
mod Tests
use cs_server.Prelude.{
  ℕ, String, Bool, ◌&&◌, Option, none, some, List, [], ◌∷◌, ◌++◌, ltb, str_eq, length, update,
  if◌then◌else◌,
}

pub record Run : Type 0 where
  pub id : String
  pub status : String
  pub started : ℕ

-- The published values of one pipeline, by run id and status.
abbrev pub Gauge : Type 0
Gauge = String → String → Option ℕ

-- `labels(…).set(v)` and `remove(…)`.
abbrev pub set_label : String → String → ℕ → Gauge → Gauge
set_label id status v g a b = if str_eq id a && str_eq status b then some v else g a b

abbrev pub remove_label : String → String → Gauge → Gauge
remove_label id status g a b = if str_eq id a && str_eq status b then none else g a b

pub record Ring : Type 0 where
  pub runs : List Run
  pub gauge : Gauge

pub record Registry : Type 0 where
  pub size : ℕ
  pub rings : String → Ring

unfoldable pub find_run : String → List Run → Option Run
find_run id [] = none
find_run id (r ∷ rs) = let rest = find_run id rs in if str_eq r.id id then some r else rest

unfoldable pub set_status : String → String → List Run → List Run
set_status id status [] = []
set_status id status (r ∷ rs) =
    let rest = set_status id status rs in
    if str_eq r.id id then record r { status = status } ∷ rs else r ∷ rest

-- `while len(runs) > size`: the oldest run goes, and its label set.
unfoldable pub evict : ℕ → List Run → Gauge → Ring
evict size [] g = record { runs = []; gauge = g }
evict size (r ∷ rs) g =
    let rest = evict size rs (remove_label r.id r.status g) in
    if ltb size (length (r ∷ rs)) then rest else record { runs = r ∷ rs; gauge = g }

-- A run that is in the ring changes its label set; another joins the ring.
abbrev pub register_found : Option Run → ℕ → String → String → ℕ → Ring → Ring
register_found (some old) size id status started ring = record {
  runs = set_status id status ring.runs;
  gauge = set_label id status old.started (remove_label id old.status ring.gauge);
}
register_found none size id status started ring =
    evict size (ring.runs ++ (record { id = id; status = status; started = started } ∷ []))
      (set_label id status started ring.gauge)

unfoldable pub register : String → String → String → ℕ → Registry → Registry
unfolding find_run set_status evict
register pipeline id status started s = record s {
  rings = update s.rings pipeline (
      register_found (find_run id (s.rings pipeline).runs) s.size id status started
        (s.rings pipeline));
}
