-- ===== src/Services/Monitoring/Server.antt =====
-- services/monitoring/server.js: the HTTP interface of the monitoring, and the reports.
use new_zone_reference.Prelude.{
  ℕ, String, Bool, true, false, ◌&&◌, Option, List, [], ◌∷◌, ◌++◌, if◌then◌else◌,
}
use new_zone_reference.Prelude.Int.{pos}
use new_zone_reference.Prelude.Dict.{Dict}
use new_zone_reference.Js.{Value, Fields, bool, num, str, arr, obj, end, field, prop, or_empty}
use new_zone_reference.Crypto.Routing.{Verified}
use new_zone_reference.Services.Http.{
  Request, Response, reply, parse_request_body, with_payload, ok_status, not_found, items, is_get,
  is_post,
}
use new_zone_reference.Services.Monitoring.{Health, up, down, check_services, get_recent_events}

unfoldable pub show_health : Health → Value
show_health (up details) = obj (field "ok" (bool true) (field "details" details end))
show_health down = obj (field "ok" (bool false) end)

unfoldable pub show_all : Dict Health → Fields
unfolding show_health
show_all [] = end
show_all ((name, h) ∷ status) = field name (show_health h) (show_all status)

abbrev pub is_up : Health → Bool
is_up (up details) = true
is_up down = false

-- `Object.values(status).every(s => s.ok)`
unfoldable pub every_ok : Dict Health → Bool
every_ok [] = true
every_ok ((name, h) ∷ status) = is_up h && every_ok status

-- GET /status
unfoldable pub show_status : Dict Health → Value
unfolding every_ok show_all
show_status status = obj (
    field "cluster" (str (if every_ok status then "healthy" else "degraded"))
      (field "services" (obj (show_all status)) end))

-- GET /metrics
unfoldable pub show_metrics : ℕ → Dict Health → Value → Value
unfolding show_all
show_metrics uptime status events = obj (
    field "uptime_ms" (num (pos uptime))
      (field "services" (obj (show_all status)) (field "recent_events" events end)))

-- The entry of a report.
unfoldable pub report_of : Value → Value
report_of v = obj (
    field "service" (prop "service" (or_empty v))
      (field "status" (prop "status" (or_empty v)) (field "ts" (prop "ts" (or_empty v)) end)))

-- POST /report, with the payload.
unfoldable pub post_report : Value → List Value → List Value × Response
unfolding report_of
post_report v reports = (reports ++ report_of v ∷ [], reply 200 (report_of v))

-- The handler of the server, with the time that the server has been up, and with what the services
-- answer to the requests of the health checks and of the recent events. `verify` checks routing
-- packets.
unfoldable pub handle :
    (Value → Verified)
    → ℕ
    → (String → Option Value)
    → Option Value
    → Request
    → List Value
    → List Value × Response
unfolding post_report show_status show_metrics
handle verify uptime answer events r reports =
    if is_get r "/health"
    then (reports, reply 200 ok_status)
    else if is_post r "/report"
    then with_payload (parse_request_body verify r.body) reports (λ v crypto. post_report v reports)
    else if is_get r "/reports"
    then (reports, reply 200 (arr (items reports)))
    else if is_get r "/services"
    then (reports, reply 200 (obj (show_all (check_services answer))))
    else if is_get r "/metrics"
    then (
      reports,
      reply 200 (show_metrics uptime (check_services answer) (get_recent_events events)),
    )
    else if is_get r "/status"
    then (reports, reply 200 (show_status (check_services answer)))
    else (reports, not_found)
