-- ===== src/Eligibility/Rules/Tests.antt =====
-- The theorems on rules and mirror at concrete inputs.
use cs_server.Prelude.{◌≡◌, refl, true, false, none, some, [], ◌∷◌}
use cs_server.Python.Except.{ok, raised, redis_error, value_error}
use cs_server.Python.Json.{null}
use cs_server.Eligibility.Category.{Case}
use cs_server.Eligibility.Evaluate.{EligibilityConfig, defaults}
use cs_server.Eligibility.Rules.{add_value, assemble_from, string_list, from_dict}
use cs_server.Eligibility.Rules.Service.{Store, effective_config, rehydrate_mirror, add_rule}
use cs_server.Eligibility.Rules.Mirror.{
  Agrees, adding, write, write-Agrees, rehydrate_mirror-Agrees,
}

-- Texts that are trimmed and in their table's case already.
abbrev plain : Case
plain = record { strip = λ t. t; lower = λ t. t; upper = λ t. t }

abbrev spa_only : EligibilityConfig
spa_only = record defaults { blocked_google_types = "spa" ∷ []; from_admin_override = true }

-- An empty table, and a mirror that something else has written.
abbrev stale : Store
stale = record { rules = []; mirror = some null; reachable = true }

add_run : (write plain (adding "blocked_google_type" "spa") stale).0 ≡ ok spa_only
unfolding add_rule add_value assemble_from string_list from_dict
add_run = refl

unknown_type : (add_rule plain "blocked" "spa" stale).0 ≡ raised value_error
unfolding add_rule
unknown_type = refl

-- The row is stored although the mirror is out of reach.
cut_off : add_rule plain "blocked_google_type" "spa" (record stale { reachable = false }) ≡ (
  raised redis_error,
  record { rules = ("blocked_google_type", "spa") ∷ []; mirror = some null; reachable = false },
)
unfolding add_rule add_value assemble_from
cut_off = refl

write-Agrees_example :
    Agrees plain spa_only (write plain (adding "blocked_google_type" "spa") stale).1
write-Agrees_example =
    write-Agrees plain (adding "blocked_google_type" "spa") stale spa_only add_run

abbrev flushed : Store
flushed = record { rules = ("blocked_google_type", "spa") ∷ []; mirror = none; reachable = true }

rehydrate_mirror-Agrees_example :
    ((rehydrate_mirror flushed).0 ≡ ok tt)
    × (((rehydrate_mirror flushed).1.rules ≡ flushed.rules)
        × (flushed.reachable ≡ true
            → (cfg : EligibilityConfig) → (effective_config plain flushed).0 ≡ ok cfg
            → Agrees plain cfg (rehydrate_mirror flushed).1))
rehydrate_mirror-Agrees_example = rehydrate_mirror-Agrees plain flushed
