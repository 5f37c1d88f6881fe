-- ===== src/Eligibility/CategoryMap.antt =====
-- `load_category_map` of app/models/venue_category.py. The read of Redis and `json.loads` are
-- parameters.
use cs_server.Prelude.{String, Option, none, some, ◌∷◌}
use cs_server.Python.Except.{Result, ok}
use cs_server.Python.Json.{Json, str, obj, Fields, end, field, get}
use cs_server.Eligibility.Categories.{Table, google_to_category, besttime_to_category}
use cs_server.Eligibility.Category.{Case}

-- `table[key] = value`; the first entry of a key is the one that `lookup` reads.
abbrev set_entry : String → String → Table → Table
set_entry k v table = (k, v) ∷ table

-- The texts of an override, over a table.
unfoldable override : (String → String) → Fields → Table → Table
override fold end table = table
override fold (field k (str v) rest) table = override fold rest (set_entry (fold k) v table)
override fold (field k _ rest) table = override fold rest table

abbrev override_by : (String → String) → Option Json → Table → Table
override_by fold (some (obj fs)) table = override fold fs table
override_by fold _ table = table

abbrev shipped : Table × Table
shipped = (google_to_category, besttime_to_category)

abbrev merge_maps : Case → Result Json → Table × Table
merge_maps case (ok (obj fs)) = (
  override_by case.lower (get "google" fs) google_to_category,
  override_by case.upper (get "besttime" fs) besttime_to_category,
)
merge_maps case _ = shipped

abbrev merge_raw : Case → (String → Result Json) → Result (Option String) → Table × Table
merge_raw case loads (ok (some raw)) = merge_maps case (loads raw)
merge_raw case loads _ = shipped

-- `read` is none without a client, and raised where the read fails.
unfoldable pub load_category_map :
    Case → (String → Result Json) → Option (Result (Option String)) → Table × Table
unfolding override get
load_category_map case loads none = shipped
load_category_map case loads (some read) = merge_raw case loads read
