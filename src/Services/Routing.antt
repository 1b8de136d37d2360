-- ===== src/Services/Routing.antt =====
-- services/routing: the routes by the name of a target, and the HTTP interface.
use new_zone_reference.Prelude.{ℕ, String, Option, [], ◌∷◌, if◌then◌else◌}
use new_zone_reference.Prelude.Dict.{Dict}
use new_zone_reference.Js.{Value, undefined, null, str, or_else, or_empty, prop}
use new_zone_reference.Js.Object.{Slot, missing, read}
use new_zone_reference.Crypto.Routing.{Verified}
use new_zone_reference.Services.Ports.{Service, identity, metadata, consensus, storage, event}
use new_zone_reference.Services.Forward.{Answer, result_of, relay}
use new_zone_reference.Services.Http.{
  Request, Response, reply, parse_request_body, Parsed, payload, answered, ok_status, not_found,
  error, is_get, is_post,
}

-- The routes of `resolveRoute`, each to a port of the same machine.
abbrev pub routes : Dict Service
routes =
    ("identity", identity)
    ∷ ("metadata", metadata)
    ∷ ("consensus", consensus)
    ∷ ("storage", storage)
    ∷ ("event", event)
    ∷ []

-- A request to a target; `inherited` is a route without host and port, which is what the name of a
-- property of `Object.prototype` finds.
pub record Forwarded : Type 0 where
  pub route : Slot Service
  pub path : Value
  pub method : Value
  pub body : Value

-- `forward`
unfoldable pub forward : (Forwarded → Answer) → Forwarded → Option (ℕ × Value)
unfolding result_of
forward network request = result_of "Invalid JSON from target" "Forward error" (network request)

-- `property_key` converts a value to the name of a property, `verify` checks routing packets, and
-- `network` is what comes of a request.
module _ (property_key : Value → String) (verify : Value → Verified)
    (network : Forwarded → Answer) where
  -- `resolveRoute`
  unfoldable pub resolve_route : Value → Slot Service
  unfolding read
  resolve_route target = read (property_key target) routes

  unfoldable pub send_to : Slot Service → Value → Response
  unfolding forward relay
  send_to missing v = reply 400 (error "Unknown target")
  send_to route v = relay (reply 400 (error "Invalid request")) (
      forward network (record {
        route = route;
        path = prop "path" v;
        method = or_else (prop "method" v) (str "POST");
        body = or_empty (prop "body" v);
      }))

  -- POST /route, with the payload; the properties of `null` are an error.
  unfoldable pub post_route : Value → Response
  unfolding resolve_route send_to
  post_route undefined = reply 400 (error "Invalid request")
  post_route null = reply 400 (error "Invalid request")
  post_route v = send_to (resolve_route (or_else (prop "target" v) (prop "service" v))) v

  unfoldable pub route_parsed : Parsed → Response
  unfolding post_route
  route_parsed (payload v crypto) = post_route v
  route_parsed (answered r) = r

  -- The handler of the server, which keeps no state.
  unfoldable pub handle : Request → Response
  unfolding route_parsed
  handle r =
      if is_get r "/health"
      then reply 200 ok_status
      else if is_post r "/route"
      then route_parsed (parse_request_body verify r.body)
      else not_found
