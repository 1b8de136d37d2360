-- ===== src/Services/Rules/Actions.antt =====
-- services/rules/index.js: which requests an evaluation makes, and what setting the rule changes.
use new_zone_reference.Prelude.{
  String, ◌≡◌, refl, Bool, true, false, Option, none, some, arith, str_eq, eq_iff, if◌then◌else◌,
  length, filter,
}
use new_zone_reference.Prelude.Dict.{get, put, get-put}
use new_zone_reference.Js.{Value, obj, Fields, end, field}
use new_zone_reference.Services.Rules.{
  Config, spread, set_history_rule, Target, replication, logging, analytics, Request, is_on,
  evaluate_rules,
}

-- The last value that the fields give to a name.
unfoldable pub last_value : String → Fields → Option Value
last_value k end = none
last_value k (field j v fs) = elim (last_value k fs) [
  | none ↦ if str_eq j k then some v else none
  | some w ↦ some w
]

abbrev pub over : Option Value → Option Value → Option Value
over none old = old
over (some v) old = some v

get-spread :
    (k : String) (fs : Fields) (config : Config)
    → get k (spread config fs) ≡ over (last_value k fs) (get k config)
unfolding spread last_value
get-spread k end config = refl
get-spread k (field j v fs) config =
    ground (arith, get-spread k fs (put j v config), get-put j k v config, eq_iff j k)

-- Setting the rule to an object gives each of its names the last value that it has there, and keeps
-- every other name of the configuration.
pub set_history_rule_merges :
    (k : String) (fs : Fields) (config : Config)
    → get k (set_history_rule (obj fs) config) ≡ over (last_value k fs) (get k config)
unfolding set_history_rule
set_history_rule_merges k fs config = get-spread k fs config

unfoldable pub is_target : Target → Request → Bool
is_target replication r = elim r.target [ replication ↦ true | _ ↦ false ]
is_target logging r = elim r.target [ logging ↦ true | _ ↦ false ]
is_target analytics r = elim r.target [ analytics ↦ true | _ ↦ false ]

abbrev pub flag_of : Target → String
flag_of replication = "replicate"
flag_of logging = "log"
flag_of analytics = "analytics"

-- An evaluation makes one request to a service if the flag of that service is set, and none
-- otherwise, whatever the other flags are.
pub evaluate_rules_once :
    (t : Target) (context : Value) (config : Config)
    → length (filter (is_target t) (evaluate_rules context config))
      ≡ (if is_on (flag_of t) config then 1 else 0)
unfolding evaluate_rules is_target
evaluate_rules_once replication context config = ground arith
evaluate_rules_once logging context config = ground arith
evaluate_rules_once analytics context config = ground arith
