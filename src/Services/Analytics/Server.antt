-- ===== src/Services/Analytics/Server.antt =====
-- services/analytics/server.js: the HTTP interface of the counts, and the records.
use new_zone_reference.Prelude.{ℕ, Option, none, some, List, [], ◌∷◌, ◌++◌, if◌then◌else◌}
use new_zone_reference.Prelude.Int.{pos}
use new_zone_reference.Prelude.Dict.{Dict}
use new_zone_reference.Js.{Value, Fields, null, num, arr, obj, end, field}
use new_zone_reference.Crypto.Routing.{Verified}
use new_zone_reference.Services.Http.{
  Request, Response, reply, parse_request_body, with_payload, ok_status, not_found, items, error,
  is_get, is_post,
}
use new_zone_reference.Services.Analytics.{Event, Count, Metrics, recompute_metrics}

pub record Server : Type 0 where
  pub records : List Value
  pub metrics : Metrics

-- What comes of the request to one of the two services: an array of events, `none` where the request
-- fails or answers no JSON, or a value of which reading the events is an error.
pub data Fetched : Type 0 where
  fetched : Option (List Event) → Fetched
  unusable : Fetched

unfoldable pub time_value : Option ℕ → Value
time_value none = null
time_value (some now) = num (pos now)

-- `count_value` is a counter as a value of the language, and `verify` checks routing packets.
module _ (count_value : Count → Value) (verify : Value → Verified) where
  unfoldable pub count_fields : Dict Count → Fields
  count_fields [] = end
  count_fields ((name, c) ∷ counts) = field name (count_value c) (count_fields counts)

  -- GET /metrics
  unfoldable pub show_metrics : Metrics → Value
  unfolding count_fields time_value
  show_metrics m = obj (
      field "events_by_source" (obj (count_fields m.events_by_source)) (
        field "events_by_type" (obj (count_fields m.events_by_type)) (
          field "total_events" (num (pos m.total_events))
            (field "last_updated" (time_value m.last_updated) end))))

  -- GET /summary
  unfoldable pub show_summary : Metrics → Value
  unfolding count_fields time_value
  show_summary m = obj (
      field "total_events" (num (pos m.total_events)) (
        field "sources" (obj (count_fields m.events_by_source)) (
          field "types" (obj (count_fields m.events_by_type))
            (field "last_updated" (time_value m.last_updated) end))))

  -- POST /record, with the payload.
  unfoldable pub post_record : Value → Server → Server × Response
  post_record v s = (record s { records = s.records ++ v ∷ [] }, reply 200 v)

  -- POST /recompute, with what the two services answer.
  unfoldable pub post_recompute : Fetched → Fetched → ℕ → Server → Server × Response
  unfolding show_metrics
  post_recompute unusable bus now s = (s, reply 500 (error "Recompute failed"))
  post_recompute (fetched logging) unusable now s = (s, reply 500 (error "Recompute failed"))
  post_recompute (fetched logging) (fetched bus) now s =
      let metrics = recompute_metrics logging bus now in
      (record s { metrics = metrics }, reply 200 (show_metrics metrics))

  -- The handler of the server, with the answers of the two services and the time.
  unfoldable pub handle : Fetched → Fetched → ℕ → Request → Server → Server × Response
  unfolding post_record post_recompute show_metrics show_summary
  handle logging bus now r s =
      if is_get r "/health"
      then (s, reply 200 ok_status)
      else if is_post r "/record"
      then with_payload (parse_request_body verify r.body) s (λ v crypto. post_record v s)
      else if is_get r "/records"
      then (s, reply 200 (arr (items s.records)))
      else if is_get r "/metrics"
      then (s, reply 200 (show_metrics s.metrics))
      else if is_post r "/recompute"
      then with_payload (parse_request_body verify r.body) s
          (λ v crypto. post_recompute logging bus now s)
      else if is_get r "/summary"
      then (s, reply 200 (show_summary s.metrics))
      else (s, not_found)
