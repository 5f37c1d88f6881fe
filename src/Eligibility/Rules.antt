-- ===== src/Eligibility/Rules.antt =====
-- The rules behind the block lists: the rows of one rule each and the blob of the admin override, of
-- app/services/venue_eligibility.py. A `frozenset` is the list of what was put in; only membership
-- is asked of it.
pub mod Service
pub mod Mirror
mod Tests
use cs_server.Prelude.{
  ℕ, String, Bool, true, false, not, ◌&&◌, ◌||◌, Option, none, some, List, [], ◌∷◌, ◌++◌, map, ◌==◌,
  str_eq, elem, if◌then◌else◌,
}
use cs_server.Prelude.Int.{ℤ, pos, negsuc}
use cs_server.Python.Except.{Result, ok, raised, value_error, key_error, and_then}
use cs_server.Python.Json.{
  Json, null, bool, int, decimal, str, arr, obj, Items, nil, cons, Fields, end, field, get, codes,
  truthy,
}
use cs_server.Events.Merge.{points_lt}
use cs_server.Eligibility.Category.{Case}
use cs_server.Eligibility.Defaults.{
  default_blocked_venue_types, default_blocked_google_types, default_hard_blocked_name_keywords,
  default_ambiguous_name_keywords,
}
use cs_server.Eligibility.Evaluate.{EligibilityConfig, defaults}

abbrev prepend : String → Result (List String) → Result (List String)
prepend s (ok ss) = ok (s ∷ ss)
prepend s (raised e) = raised e

-- The texts of a list that holds nothing else.
unfoldable strings_of : Items → Result (List String)
strings_of nil = ok []
strings_of (cons (str s) rest) = prepend s (strings_of rest)
strings_of (cons _ rest) = raised value_error

abbrev strings_or : List String → Option Json → Result (List String)
strings_or default none = ok default
strings_or default (some null) = ok default
strings_or default (some (arr xs)) = strings_of xs
strings_or default (some _) = raised value_error

-- `_string_list(key, default)`
unfoldable pub string_list : Fields → String → List String → Result (List String)
unfolding strings_of get
string_list fs key default = strings_or default (get key fs)

abbrev has_key : Option Json → Bool
has_key none = false
has_key (some v) = true

-- `hard + [kw for kw in extra if kw not in hard]`
unfoldable pub added : List String → List String → List String
added hard [] = []
added hard (kw ∷ kws) = let rest = added hard kws in if elem kw hard then rest else kw ∷ rest

-- The hard keywords with the alias of the operators.
unfoldable with_alias : Fields → List String → Result (List String)
unfolding string_list added get
with_alias fs hard =
    let extra = string_list fs "blocked_name_keywords" [] in
    if truthy (get "blocked_name_keywords" fs)
    then and_then extra (λ kws. ok (hard ++ added hard kws))
    else ok hard

-- A rule: its type and its value.
abbrev pub Rule : Type 0
Rule = String × String

abbrev pub rule_eq : Rule → Rule → Bool
rule_eq a b = str_eq a.0 b.0 && str_eq a.1 b.1

abbrev text_lt : String → String → Bool
text_lt a b = points_lt (codes a) (codes b)

abbrev rule_lt : Rule → Rule → Bool
rule_lt a b = text_lt a.0 b.0 || str_eq a.0 b.0 && text_lt a.1 b.1

-- Into a sorted set.
unfoldable pub insert_rule : Rule → List Rule → List Rule
unfolding points_lt
insert_rule r [] = r ∷ []
insert_rule r (s ∷ ss) =
    let later = insert_rule r ss in
    if rule_eq r s then s ∷ ss else (if rule_lt r s then r ∷ s ∷ ss else s ∷ later)

-- `rows |= {(rule_type, v) for v in values}`
unfoldable insert_values : String → List String → List Rule → List Rule
unfolding insert_rule
insert_values rule_type [] rows = rows
insert_values rule_type (v ∷ vs) rows = insert_rule (rule_type, v) (insert_values rule_type vs rows)

abbrev insert_if : Bool → String → List String → List Rule → List Rule
insert_if b rule_type vs rows =
    let more = insert_values rule_type vs rows in if b then more else rows

-- The key of the blob for a type of rule.
unfoldable pub blob_key : String → Option String
blob_key t =
    if str_eq t "blocked_venue_type"
    then some "blocked_venue_types"
    else (if str_eq t "blocked_google_type"
        then some "blocked_google_types"
        else (if str_eq t "hard_blocked_name_keyword"
            then some "hard_blocked_name_keywords"
            else (if str_eq t "ambiguous_name_keyword"
                then some "ambiguous_name_keywords"
                else none)))

-- The blob that is assembled, as a dictionary in the order of insertion.
abbrev pub Blob : Type 0
Blob = List (String × List String)

abbrev append_new : String → List String → List String
append_new v bucket = if elem v bucket then bucket else bucket ++ (v ∷ [])

-- `bucket = blob.setdefault(key, [])`, and the value where it is new.
unfoldable pub add_value : String → String → Blob → Blob
add_value key v [] = (key, v ∷ []) ∷ []
add_value key v ((k, bucket) ∷ rest) =
    let later = add_value key v rest in
    if str_eq k key then (k, append_new v bucket) ∷ rest else (k, bucket) ∷ later

abbrev add_keyed : Option String → String → Blob → Result Blob
add_keyed none v blob = raised key_error
add_keyed (some key) v blob = ok (add_value key v blob)

unfoldable pub assemble_from : Blob → List Rule → Result Blob
unfolding add_value blob_key
assemble_from blob [] = ok blob
assemble_from blob ((t, v) ∷ rules) =
    and_then (add_keyed (blob_key t) v blob) (λ b. assemble_from b rules)

abbrev pub assemble_eligibility_blob : List Rule → Result Blob
assemble_eligibility_blob rules = assemble_from [] rules

abbrev items_of : List String → Items
items_of [] = nil
items_of (s ∷ ss) = cons (str s) (items_of ss)

abbrev fields_of : Blob → Fields
fields_of [] = end
fields_of ((k, bucket) ∷ rest) = field k (arr (items_of bucket)) (fields_of rest)

-- The JSON value of a blob.
abbrev pub json_of : Blob → Json
json_of blob = obj (fields_of blob)

module _ (case : Case) where
  abbrev config_of :
      Bool → List String → List String → List String → List String → EligibilityConfig
  config_of from_admin venue google hard ambiguous = record {
    blocked_venue_types = map case.upper venue;
    blocked_google_types = map case.lower google;
    hard_blocked_name_keywords = map case.lower hard;
    ambiguous_name_keywords = map case.lower ambiguous;
    from_admin_override = from_admin;
  }

  unfoldable pub from_dict : Json → Bool → Result EligibilityConfig
  unfolding string_list with_alias
  from_dict (obj fs) from_admin =
      and_then (string_list fs "blocked_venue_types" default_blocked_venue_types) λ venue.
        and_then (string_list fs "blocked_google_types" default_blocked_google_types) λ google.
          and_then (string_list fs "hard_blocked_name_keywords" default_hard_blocked_name_keywords)
            λ hard.
              and_then (string_list fs "ambiguous_name_keywords" default_ambiguous_name_keywords)
                λ ambiguous.
                  and_then (with_alias fs hard)
                    λ all_hard. ok (config_of from_admin venue google all_hard ambiguous)
  from_dict _ from_admin = raised value_error

  -- The rows of a valid blob.
  abbrev rows_of : Fields → EligibilityConfig → List Rule
  rows_of fs cfg =
      insert_if (has_key (get "blocked_venue_types" fs)) "blocked_venue_type"
        cfg.blocked_venue_types
        (insert_if (has_key (get "blocked_google_types" fs)) "blocked_google_type"
          cfg.blocked_google_types
          (insert_if (has_key (get "ambiguous_name_keywords" fs)) "ambiguous_name_keyword"
            cfg.ambiguous_name_keywords
            (insert_if
              (has_key (get "hard_blocked_name_keywords" fs)
                || has_key (get "blocked_name_keywords" fs))
              "hard_blocked_name_keyword" cfg.hard_blocked_name_keywords [])))

  unfoldable pub decompose_eligibility_blob : Json → Result (List Rule)
  unfolding from_dict insert_values get
  decompose_eligibility_blob (obj fs) =
      and_then (from_dict (obj fs) true) λ cfg. ok (rows_of fs cfg)
  decompose_eligibility_blob blob = and_then (from_dict blob true) λ cfg. ok []

  unfoldable pub eligibility_config_from_rules : List Rule → Bool → Result EligibilityConfig
  unfolding assemble_from from_dict
  eligibility_config_from_rules [] from_admin = ok defaults
  eligibility_config_from_rules (r ∷ rules) from_admin =
      and_then (assemble_eligibility_blob (r ∷ rules)) λ blob. from_dict (json_of blob) from_admin

  -- Upper case for the types of BestTime, lower case for the others.
  unfoldable pub normalize_rule_value : String → String → Result String
  unfolding blob_key
  normalize_rule_value t v = elim (blob_key t) [
    | none ↦ raised value_error
    | some k ↦ ok (if str_eq t "blocked_venue_type" then case.upper v else case.lower v)
  ]
