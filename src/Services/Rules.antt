-- ===== src/Services/Rules.antt =====
-- services/rules/index.js: the history rule and the requests that it asks for.
pub mod Actions
pub mod Server
pub mod Pipeline
use new_zone_reference.Prelude.{
  ℕ, zero, suc, ◌+◌, ◌-◌, ◌*◌, ◌/◌, ◌%◌, ◌^◌, ◌≤◌, ◌<◌, String, ◌≡◌, refl, sym, ap, ◌∙◌, ◌≢◌, ◌↔◌,
  ◌⊎◌, inl, inr, Bool, true, false, not, ◌&&◌, ◌||◌, Option, none, some, List, [], ◌∷◌, ◌++◌, map,
  append_assoc, append-nil, arith, str_eq, eq_iff, eq_refl, ltb, leb, ◌==◌, if◌then◌else◌, ltb→lt,
  lt→ltb, leb→le, ==_iff, Bool-cases, Option-cases, List-cases, length, take, drop, replicate,
  filter, length-append, length-take, length-drop, length-replicate, length-filter, length-map,
  take-append-drop, take-append, drop-append, take_of_le, drop-append_of_le, drop-drop, drop-nil,
  last, length-last, last_of_le, last-last, push_bounded, length-push_bounded, push_bounded-last,
  push_all, push_all-last,
}
use new_zone_reference.Prelude.Dict.{Dict, get, put}
use new_zone_reference.Js.{
  Value, undefined, null, bool, num, str, arr, obj, truthy, Fields, end, field,
}

-- The own properties of the configuration.
abbrev pub Config : Type 0
Config = Dict Value

abbrev pub initial : Config
initial = ("replicate", bool false) ∷ ("log", bool false) ∷ ("analytics", bool false) ∷ []

-- `{...config, ...fields}`
unfoldable pub spread : Config → Fields → Config
spread config end = config
spread config (field k v fs) = spread (put k v config) fs

-- `setHistoryRule`: what is no object, or is `null`, is ignored. An array is an object too, and
-- would spread its elements under the names of their indices; those are not modelled.
unfoldable pub set_history_rule : Value → Config → Config
unfolding spread
set_history_rule (obj fs) config = spread config fs
set_history_rule v config = config

-- `getHistoryRule`
unfoldable pub get_history_rule : Config → Config
get_history_rule config = config

-- The requests to the three services, by the service.
pub data Target : Type 0 where
  replication logging analytics : Target

pub record Request : Type 0 where
  pub target : Target
  pub path : String
  pub body : Value

-- `applyReplication`
unfoldable pub apply_replication : Value → Request
apply_replication context = record { target = replication; path = "/replicate"; body = context }

-- `applyLogging`
unfoldable pub apply_logging : Value → Request
apply_logging context = record {
  target = logging;
  path = "/log";
  body = obj (
      field "source" (str "rules")
        (field "event" (str "history_event") (field "payload" context end)));
}

-- `applyAnalytics`
unfoldable pub apply_analytics : Value → Request
apply_analytics context = record { target = analytics; path = "/record"; body = context }

-- `cfg.name` in a condition.
unfoldable pub is_on : String → Config → Bool
unfolding truthy
is_on name config = elim (get name config) [ none ↦ false | some v ↦ truthy v ]

-- `evaluateRules`: the requests in the order in which they are made. A request that fails is
-- ignored, so it stops no later one.
unfoldable pub evaluate_rules : Value → Config → List Request
unfolding apply_replication apply_logging apply_analytics is_on
evaluate_rules context config =
    (if is_on "replicate" config then apply_replication context ∷ [] else [])
    ++ ((if is_on "log" config then apply_logging context ∷ [] else [])
        ++ (if is_on "analytics" config then apply_analytics context ∷ [] else []))
