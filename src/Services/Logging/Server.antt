-- ===== src/Services/Logging/Server.antt =====
-- services/logging/server.js: the HTTP interface of the log.
use new_zone_reference.Prelude.{ℕ, zero, String, Option, none, some, List, [], ◌∷◌, if◌then◌else◌}
use new_zone_reference.Prelude.Int.{ℤ, pos}
use new_zone_reference.Js.{Value, Items, num, str, arr, obj, nil, cons, end, field, prop, or_empty}
use new_zone_reference.Crypto.Routing.{Verified}
use new_zone_reference.Services.Http.{
  Request, Response, reply, parse_request_body, with_payload, ok_status, not_found, is_get,
  is_get_below, is_post,
}
use new_zone_reference.Services.Logging.{Entry, Logs, Call, add_log, get_logs}

unfoldable pub entry_value : Entry → Value
entry_value e = obj (
    field "ts" (num (pos e.ts))
      (field "source" e.source (field "event" e.event (field "payload" e.payload end))))

unfoldable pub entry_values : List Entry → Items
entry_values [] = nil
entry_values (e ∷ logs) = cons (entry_value e) (entry_values logs)

-- `Number(...) || 100`, of the number that the text stands for, if it is one.
unfoldable pub or_hundred : Option ℤ → ℤ
or_hundred none = pos 100
or_hundred (some (pos zero)) = pos 100
or_hundred (some n) = n

-- `verify` checks routing packets; `number_after` is `Number(url.split(text)[1])`, which may give NaN.
module _ (verify : Value → Verified) (number_after : String → String → Option ℤ) where
  -- POST /write, with the payload.
  unfoldable pub post_write : ℕ → Value → Logs → Logs × Response
  post_write now v logs =
      let level = prop "level" (or_empty v) in
      let message = prop "message" (or_empty v) in
      let call : Call = record {
        now = now;
        source = str "logging";
        event = level;
        payload = obj (field "message" message end);
      } in
      ((add_log call logs).0, reply 200 (obj (field "level" level (field "message" message end))))

  -- POST /log, with the payload.
  unfoldable pub post_log : ℕ → Value → Logs → Logs × Response
  unfolding entry_value
  post_log now v logs =
      let call : Call = record {
        now = now;
        source = prop "source" (or_empty v);
        event = prop "event" (or_empty v);
        payload = prop "payload" (or_empty v);
      } in
      let (logs', entry) = add_log call logs in (logs', reply 200 (entry_value entry))

  -- The handler of the server, with the time of the request.
  unfoldable pub handle : ℕ → Request → Logs → Logs × Response
  unfolding post_write post_log or_hundred entry_values
  handle now r logs =
      if is_get r "/health"
      then (logs, reply 200 ok_status)
      else if is_get r "/logs"
      then (logs, reply 200 (arr (entry_values (get_logs (pos 100) logs))))
      else if is_post r "/write"
      then with_payload (parse_request_body verify r.body) logs (λ v crypto. post_write now v logs)
      else if is_get_below r "/events"
      then (
        logs,
        reply 200 (arr (entry_values (get_logs (or_hundred (number_after r.url "?limit=")) logs))),
      )
      else if is_post r "/log"
      then with_payload (parse_request_body verify r.body) logs (λ v crypto. post_log now v logs)
      else (logs, not_found)
