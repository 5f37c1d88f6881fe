-- ===== src/Eligibility/Rules/Service.antt =====
-- `EligibilityRuleService` of app/services/eligibility_rules.py. The rows are kept in the order in which
-- the store lists them (by code points), and each rule once. The Redis mirror can be out of reach,
-- and then a write of it raises.
use cs_server.Prelude.{String, Bool, true, Option, none, some, List, [], ◌∷◌, str_eq, if◌then◌else◌}
use cs_server.Python.Except.{
  Result, Exec, ok, raised, value_error, redis_error, and_then, lift, ◌>>=◌,
}
use cs_server.Python.Json.{Json}
use cs_server.Eligibility.Category.{Case}
use cs_server.Eligibility.Evaluate.{EligibilityConfig, defaults}
use cs_server.Eligibility.Rules.{
  Rule, rule_eq, insert_rule, blob_key, assemble_eligibility_blob, assemble_from, json_of,
  from_dict, decompose_eligibility_blob, eligibility_config_from_rules, normalize_rule_value,
}

pub record Store : Type 0 where
  pub rules : List Rule
  pub mirror : Option Json
  pub reachable : Bool

abbrev remove_rule_row : Rule → List Rule → List Rule
remove_rule_row r [] = []
remove_rule_row r (s ∷ ss) =
    let rest = remove_rule_row r ss in if rule_eq r s then rest else s ∷ rest

unfoldable pub list_eligibility_rules : Exec Store (List Rule)
list_eligibility_rules s = (ok s.rules, s)

unfoldable pub add_eligibility_rule : Rule → Exec Store (Unit {0})
unfolding insert_rule
add_eligibility_rule r s = (ok tt, record s { rules = insert_rule r s.rules })

unfoldable pub remove_eligibility_rule : Rule → Exec Store (Unit {0})
remove_eligibility_rule r s = (ok tt, record s { rules = remove_rule_row r s.rules })

abbrev insert_all : List Rule → List Rule → List Rule
insert_all [] rows = rows
insert_all (r ∷ rs) rows = insert_all rs (insert_rule r rows)

unfoldable pub replace_eligibility_rules : List Rule → Exec Store (Unit {0})
unfolding insert_rule
replace_eligibility_rules rs s = (ok tt, record s { rules = insert_all rs [] })

-- `set_mirror` and `delete_mirror`, by the value that is left.
unfoldable pub write_mirror : Option Json → Exec Store (Unit {0})
write_mirror v s = if s.reachable then (ok tt, record s { mirror = v }) else (raised redis_error, s)

unfoldable pub project_mirror : List Rule → Exec Store (Unit {0})
unfolding write_mirror assemble_from
project_mirror [] = write_mirror none
project_mirror (r ∷ rules) = do
  blob ← lift (assemble_eligibility_blob (r ∷ rules))
  write_mirror (some (json_of blob))

-- Any error is logged.
abbrev swallow : Result (Unit {0}) × Store → Result (Unit {0}) × Store
swallow p = (ok tt, p.1)

unfoldable pub rehydrate_mirror : Exec Store (Unit {0})
unfolding list_eligibility_rules project_mirror
rehydrate_mirror s = swallow ((list_eligibility_rules >>= project_mirror) s)

module _ (case : Case) where
  unfoldable pub effective_config : Exec Store EligibilityConfig
  unfolding list_eligibility_rules eligibility_config_from_rules
  effective_config = do
    rules ← list_eligibility_rules
    lift (eligibility_config_from_rules case rules true)

  unfoldable pub remirror : Exec Store EligibilityConfig
  unfolding list_eligibility_rules project_mirror eligibility_config_from_rules
  remirror = do
    rules ← list_eligibility_rules
    _ ← project_mirror rules
    lift (eligibility_config_from_rules case rules true)

  abbrev typed : Option String → String → String → Result Rule
  typed none t v = raised value_error
  typed (some key) t v =
      if str_eq (case.strip v) ""
      then raised value_error
      else and_then (normalize_rule_value case t (case.strip v)) (λ w. ok (t, w))

  unfoldable pub validate : String → String → Result Rule
  unfolding normalize_rule_value blob_key
  validate t v = typed (blob_key t) t v

  unfoldable pub add_rule : String → String → Exec Store EligibilityConfig
  unfolding validate add_eligibility_rule remirror
  add_rule t v = do r ← lift (validate t v); _ ← add_eligibility_rule r; remirror

  unfoldable pub remove_rule : String → String → Exec Store EligibilityConfig
  unfolding validate remove_eligibility_rule remirror
  remove_rule t v = do r ← lift (validate t v); _ ← remove_eligibility_rule r; remirror

  unfoldable pub set_full_config : Json → Exec Store EligibilityConfig
  unfolding from_dict decompose_eligibility_blob replace_eligibility_rules remirror
  set_full_config blob = do
    _ ← lift (from_dict case blob true)
    rows ← lift (decompose_eligibility_blob case blob)
    _ ← replace_eligibility_rules rows
    remirror

  abbrev config_or : EligibilityConfig → Result EligibilityConfig → EligibilityConfig
  config_or d (ok c) = c
  config_or d (raised e) = d

  abbrev pub parsed_config : Option Json → EligibilityConfig
  parsed_config none = defaults
  parsed_config (some v) = config_or defaults (from_dict case v true)

  -- `load_eligibility_config`: what the readers of the mirror see. A mirror out of reach gives the
  -- defaults.
  unfoldable pub load_eligibility_config : Store → EligibilityConfig
  unfolding from_dict
  load_eligibility_config s = if s.reachable then parsed_config s.mirror else defaults
