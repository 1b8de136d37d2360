-- ===== src/Services/Gateway.antt =====
-- services/gateway/index.js: the requests that the gateway passes on.
pub mod Server
use new_zone_reference.Prelude.{
  ℕ, zero, suc, ◌+◌, ◌-◌, ◌*◌, ◌/◌, ◌%◌, ◌^◌, ◌≤◌, ◌<◌, String, ◌≡◌, refl, sym, ap, ◌∙◌, ◌≢◌, ◌↔◌,
  ◌⊎◌, inl, inr, Bool, true, false, not, ◌&&◌, ◌||◌, Option, none, some, List, [], ◌∷◌, ◌++◌, map,
  append_assoc, append-nil, arith, str_eq, eq_iff, eq_refl, ltb, leb, ◌==◌, if◌then◌else◌, ltb→lt,
  lt→ltb, leb→le, ==_iff, Bool-cases, Option-cases, List-cases, length, take, drop, replicate,
  filter, length-append, length-take, length-drop, length-replicate, length-filter, length-map,
  take-append-drop, take-append, drop-append, take_of_le, drop-append_of_le, drop-drop, drop-nil,
  last, length-last, last_of_le, last-last, push_bounded, length-push_bounded, push_bounded-last,
  push_all, push_all-last,
}
use new_zone_reference.Js.{Value, truthy}
use new_zone_reference.Services.Http.{Method}
use new_zone_reference.Services.Ports.{Service}
use new_zone_reference.Services.Forward.{Answer, result_of}

-- A request to a service of the same machine; without a body where the text of the body is empty.
pub record Proxied : Type 0 where
  pub service : Service
  pub path : String
  pub method : Method
  pub body : Option Value

-- `finalBody`, where the outer `none` is an error: `signRoutingPacket` is called without `nodeKeys`,
-- which it requires.
unfoldable pub final_body : Bool → Bool → Value → Option (Option Value)
final_body sign has_keys body =
    if sign && has_keys then none else some (if truthy body then some body else none)

-- The requests that were given to `http.request`, and the result of the promise.
unfoldable pub send :
    (Proxied → Answer)
    → Service
    → String
    → Method
    → Option (Option Value)
    → List Proxied × Option (ℕ × Value)
unfolding result_of
send network service path method none = ([], none)
send network service path method (some body) =
    let request : Proxied = record {
      service = service;
      path = path;
      method = method;
      body = body;
    } in
    (request ∷ [], result_of "Invalid JSON from service" "Gateway forward error" (network request))

-- `proxyRequest`; `network` is what comes of a request.
unfoldable pub proxy_request :
    (Proxied → Answer)
    → Bool
    → Service
    → String
    → Method
    → Value
    → Bool
    → List Proxied × Option (ℕ × Value)
unfolding final_body send
proxy_request network has_keys service path method body sign =
    send network service path method (final_body sign has_keys body)
