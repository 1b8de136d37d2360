-- ===== src/Services/Gateway/Server/Forwarding.antt =====
-- services/gateway/server.js: what the gateway sends to the services.
use new_zone_reference.Prelude.{
  ℕ, String, ◌≡◌, refl, ◌⊎◌, inl, inr, Bool, true, false, ◌&&◌, Option, none, some, List, [], ◌∷◌,
  if◌then◌else◌, Bool-cases, arith,
}
use new_zone_reference.Js.{Value, null, truthy, prop}
use new_zone_reference.Crypto.Bytes.{Bytes}
use new_zone_reference.Crypto.Aead.{Cipher}
use new_zone_reference.Crypto.Ed25519.{Signer}
use new_zone_reference.Crypto.Facade.{Tools}
use new_zone_reference.Crypto.Routing.{Verified, accepted, refused, thrown, is_version}
use new_zone_reference.Services.Ports.{Service, routing}
use new_zone_reference.Services.Forward.{Answer}
use new_zone_reference.Services.Http.{
  Request, Body, empty, malformed, json, Method, post, Parsed, payload, answered, unwrap,
  parse_request_body, rest_of, is_get, is_post,
}
use new_zone_reference.Services.Gateway.{
  List, ℕ, Answer, Bool, truthy, Option, Method, String, Service, Value, Proxied, proxy_request,
  final_body, send,
}
use new_zone_reference.Services.Gateway.Server.{
  Request, Bytes, null, empty, Cipher, Body, Signer, Verified, Tools, parse_request_body, handle,
  post_route, proxy_payload, proxy_route, find_route, relay_result, routes,
}

-- What stands in a body for the services: nothing, a value that is no routing packet, or the payload of
-- a routing packet that is accepted.
pub data Passes (verify : Value → Verified) : Body → Value → Type 0 where
  nothing : Passes verify empty null
  plain :
      {v : Value} → (truthy v && is_version (prop "version" v)) ≡ false → Passes verify (json v) v
  verified :
      {v contents : Value} {node_id : String}
      → (truthy v && is_version (prop "version" v)) ≡ true
      → verify v ≡ accepted node_id contents
      → Passes verify (json v) contents

unwrap-payload :
    (checked : Verified) (v : Value) (crypto : Bool)
    → unwrap checked ≡ payload v crypto
    → (node_id : String) × (checked ≡ accepted node_id v)
unfolding unwrap
unwrap-payload (accepted node_id w) v crypto h = (node_id, cc)
unwrap-payload (refused reason) v crypto h = cc
unwrap-payload thrown v crypto h = cc

parse-Passes :
    (verify : Value → Verified) (body : Body) (v : Value) (crypto : Bool)
    → parse_request_body verify body ≡ payload v crypto
    → Passes verify body v
unfolding parse_request_body
parse-Passes verify empty v crypto h = let e : null ≡ v = cc in rw (← e) nothing
parse-Passes verify malformed v crypto h = cc
parse-Passes verify (json w) v crypto h =
    elim (Bool-cases (truthy w && is_version (prop "version" w))) [
      | inl packet ↦
          let (node_id, accepts) = unwrap-payload (verify w) v crypto (rw packet at h) in
          verified packet accepts
      | inr no_packet ↦
          let read : payload w false ≡ payload v crypto = rw no_packet at h in
          let e : w ≡ v = cc in rw (← e) (plain no_packet)
    ]

abbrev pub request_to : Service → String → Method → Value → Proxied
request_to service path method v = record {
  service = service;
  path = path;
  method = method;
  body = if truthy v then some v else none;
}

module _ (tools : Tools) (signer : Signer) (cipher : Cipher) (known_key : Value → Option Bytes)
    (verify : Value → Verified) (has_keys : Bool) (network : Proxied → Answer) where
  post_route-sent :
      (body : Body) (q : Proxied) (more : List Proxied)
      → (post_route tools signer cipher known_key verify has_keys network body).0 ≡ q ∷ more
      → (v : Value) × (more ≡ []) × (body ≡ json v) × (q ≡ request_to routing "/route" post v)
  unfolding post_route relay_result proxy_request final_body send
  post_route-sent empty q more h = cc
  post_route-sent malformed q more h = cc
  post_route-sent (json v) q more h = (v, cc, refl, cc)

  proxy_payload-sent :
      (service : Service) (path : String) (method : Method) (parsed : Parsed) (q : Proxied)
      (more : List Proxied)
      → (proxy_payload tools signer cipher known_key verify has_keys network service path method
          parsed).0
        ≡ q ∷ more
      → (v : Value) × (crypto : Bool) × (more ≡ [])
        × (parsed ≡ payload v crypto)
        × (q ≡ request_to service path method v)
  unfolding proxy_payload relay_result proxy_request final_body send
  proxy_payload-sent service path method (answered r) q more h = cc
  proxy_payload-sent service path method (payload v crypto) q more h = (v, crypto, cc, refl, cc)

  proxy_route-sent :
      (route : Option (String × Service)) (r : Request) (q : Proxied) (more : List Proxied)
      → (proxy_route tools signer cipher known_key verify has_keys network route r).0 ≡ q ∷ more
      → (prefix : String) × (service : Service) × (v : Value) × (more ≡ [])
        × (route ≡ some (prefix, service))
        × Passes verify r.body v
        × (q ≡ request_to service (rest_of prefix r.url) r.method v)
  unfolding proxy_route
  proxy_route-sent none r q more h = cc
  proxy_route-sent (some (prefix, service)) r q more h =
      let (v, crypto, single, parsed, made) =
        proxy_payload-sent service (rest_of prefix r.url) r.method _ q more h in
      (prefix, service, v, single, refl, parse-Passes verify r.body v crypto parsed, made)

  -- Whatever the gateway sends to a service is one request. Either it passes the body of POST /route on
  -- to the routing service, or it goes to the service of the first prefix that the URL starts with, with
  -- the rest of the URL, the method, and what stands in the body: nothing, a value that is no routing
  -- packet, or the payload of a routing packet that the check accepts.
  pub handle-Passes :
      (now : ℕ) (r : Request) (q : Proxied) (more : List Proxied)
      → (handle tools signer cipher known_key verify has_keys network now r).0 ≡ q ∷ more
      → (more ≡ [])
        × (((v : Value) × (is_post r "/route" ≡ true)
              × (r.body ≡ json v)
              × (q ≡ request_to routing "/route" post v))
            ⊎ ((prefix : String) × (service : Service) × (v : Value) × (find_route r.url routes
                  ≡ some (prefix, service))
                × Passes verify r.body v
                × (q ≡ request_to service (rest_of prefix r.url) r.method v)))
  unfolding handle
  handle-Passes now r q more h = elim (Bool-cases (is_get r "/health")) [
    | inl health ↦ absurd (ground arith)
    | inr not_health ↦ elim (Bool-cases (is_post r "/verify")) [
      | inl verify_url ↦ absurd (ground arith)
      | inr not_verify ↦ elim (Bool-cases (is_post r "/route")) [
        | inl route_url ↦
            let (v, single, sent, made) =
              post_route-sent r.body q more (rw (not_health, not_verify, route_url) at h) in
            (single, inl (v, route_url, sent, made))
        | inr not_route ↦
            let (prefix, service, v, single, found, passes, made) =
              proxy_route-sent (find_route r.url routes) r q more
                (rw (not_health, not_verify, not_route) at h) in
            (single, inr (prefix, service, v, found, passes, made))
      ]
    ]
  ]
