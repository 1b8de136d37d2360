-- ===== src/Services/Monitoring/Summary.antt =====
-- services/monitoring: what the summary of the cluster means.
use new_zone_reference.Prelude.{
  String, ◌≡◌, refl, Bool, true, false, ◌&&◌, Option, none, some, List, [], ◌∷◌, if◌then◌else◌,
}
use new_zone_reference.Prelude.Dict.{put}
use new_zone_reference.Js.{Value, str, prop, find_field}
use new_zone_reference.Services.Monitoring.{services, check_services, check_all, health}
use new_zone_reference.Services.Monitoring.Server.{every_ok, show_status, is_up}

abbrev is_answered : Option Value → Bool
is_answered none = false
is_answered (some details) = true

is_up-health : (o : Option Value) → is_up (health o) ≡ is_answered o
unfolding health
is_up-health none = refl
is_up-health (some details) = refl

-- Every one of the services answers its health check with JSON.
abbrev pub all_answered : (String → Option Value) → List (String × String) → Bool
all_answered answer [] = true
all_answered answer ((name, url) ∷ svcs) = is_answered (answer url) && all_answered answer svcs

-- The summary at GET /status calls the cluster healthy when all seven services answer their health
-- check with JSON, whatever the JSON says, and degraded when one of them does not.
pub show_status-check_services :
    (answer : String → Option Value)
    → prop "cluster" (show_status (check_services answer))
      ≡ str (if all_answered answer services then "healthy" else "degraded")
unfolding show_status check_services check_all every_ok prop find_field put
show_status-check_services answer = simp (is_up-health)
