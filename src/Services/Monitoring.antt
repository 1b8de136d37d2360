-- ===== src/Services/Monitoring.antt =====
-- services/monitoring/index.js: the health of the core services.
pub mod Server
pub mod Summary
use new_zone_reference.Prelude.{
  ℕ, zero, suc, ◌+◌, ◌-◌, ◌*◌, ◌/◌, ◌%◌, ◌^◌, ◌≤◌, ◌<◌, String, ◌≡◌, refl, sym, ap, ◌∙◌, ◌≢◌, ◌↔◌,
  ◌⊎◌, inl, inr, Bool, true, false, not, ◌&&◌, ◌||◌, Option, none, some, List, [], ◌∷◌, ◌++◌, map,
  append_assoc, append-nil, arith, str_eq, eq_iff, eq_refl, ltb, leb, ◌==◌, if◌then◌else◌, ltb→lt,
  lt→ltb, leb→le, ==_iff, Bool-cases, Option-cases, List-cases, length, take, drop, replicate,
  filter, length-append, length-take, length-drop, length-replicate, length-filter, length-map,
  take-append-drop, take-append, drop-append, take_of_le, drop-append_of_le, drop-drop, drop-nil,
  last, length-last, last_of_le, last-last, push_bounded, length-push_bounded, push_bounded-last,
  push_all, push_all-last,
}
use new_zone_reference.Prelude.Dict.{Dict, put}
use new_zone_reference.Js.{Value, arr, nil}

-- `SERVICES`
abbrev pub services : List (String × String)
services =
    ("identity", "http://identity-service:3000/health")
    ∷ ("metadata", "http://metadata-service:3001/health")
    ∷ ("consensus", "http://consensus-service:3002/health")
    ∷ ("storage", "http://storage-service:3003/health")
    ∷ ("gateway", "http://gateway-service:3004/health")
    ∷ ("routing", "http://routing-service:3005/health")
    ∷ ("logging", "http://logging-service:3006/health")
    ∷ []

-- An entry of the results: `{ ok: true, details }` or `{ ok: false }`.
pub data Health : Type 0 where
  up : Value → Health
  down : Health

-- The body of the loop, of what a service answers: JSON, or anything else that makes the fetch fail.
unfoldable pub health : Option Value → Health
health none = down
health (some details) = up details

unfoldable pub check_all :
    (String → Option Value) → List (String × String) → Dict Health → Dict Health
unfolding health
check_all answer [] results = results
check_all answer ((name, url) ∷ svcs) results =
    check_all answer svcs (put name (health (answer url)) results)

-- `checkServices`
unfoldable pub check_services : (String → Option Value) → Dict Health
unfolding check_all
check_services answer = check_all answer services []

-- `getRecentEvents`, of what the logging service answers.
unfoldable pub get_recent_events : Option Value → Value
get_recent_events none = arr nil
get_recent_events (some events) = events
