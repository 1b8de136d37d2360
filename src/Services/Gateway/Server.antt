-- ===== src/Services/Gateway/Server.antt =====
-- services/gateway/server.js: the crypto firewall and the routes.
pub mod Firewall
pub mod Forwarding
use new_zone_reference.Prelude.{
  ℕ, zero, suc, ◌+◌, ◌-◌, ◌*◌, ◌/◌, ◌%◌, ◌^◌, ◌≤◌, ◌<◌, String, ◌≡◌, refl, sym, ap, ◌∙◌, ◌≢◌, ◌↔◌,
  ◌⊎◌, inl, inr, Bool, true, false, not, ◌&&◌, ◌||◌, Option, none, some, List, [], ◌∷◌, ◌++◌, map,
  append_assoc, append-nil, arith, str_eq, eq_iff, eq_refl, ltb, leb, ◌==◌, if◌then◌else◌, ltb→lt,
  lt→ltb, leb→le, ==_iff, Bool-cases, Option-cases, List-cases, length, take, drop, replicate,
  filter, length-append, length-take, length-drop, length-replicate, length-filter, length-map,
  take-append-drop, take-append, drop-append, take_of_le, drop-append_of_le, drop-drop, drop-nil,
  last, length-last, last_of_le, last-last, push_bounded, length-push_bounded, push_bounded-last,
  push_all, push_all-last,
}
use Prim.Native.String as Text
use text.Mathlib.Text.{starts_with}
use new_zone_reference.Prelude.Dict.{Dict}
use new_zone_reference.Js.{Value, undefined, null, bool, str, obj, end, field, truthy, prop}
use new_zone_reference.Crypto.Bytes.{Bytes}
use new_zone_reference.Crypto.Result.{Result, ok, err}
use new_zone_reference.Crypto.Aead.{Cipher}
use new_zone_reference.Crypto.Ed25519.{Signer}
use new_zone_reference.Crypto.Facade.{Tools}
use new_zone_reference.Crypto.Facade.Encrypted.{decrypt_packet, is_text}
use new_zone_reference.Crypto.Facade.Signed.{
  Reason, Checked, accepted, refused, thrown, verify_signed_packet,
}
use new_zone_reference.Crypto.Routing.{Verified}
use new_zone_reference.Services.Ports.{Service, identity, metadata, consensus, storage, routing}
use new_zone_reference.Services.Forward.{Answer, relay}
use new_zone_reference.Services.Gateway.{Proxied, proxy_request}
use new_zone_reference.Services.Http.{
  Request, Response, reply, Body, empty, malformed, json, Method, post, Parsed, payload, answered,
  parse_request_body, rest_of, ok_status, error, is_get, is_post,
}

-- `ROUTES`
abbrev pub routes : Dict Service
routes =
    ("/identity", identity)
    ∷ ("/metadata", metadata)
    ∷ ("/consensus", consensus)
    ∷ ("/storage", storage)
    ∷ []

-- `Object.keys(ROUTES).find(p => req.url.startsWith(p))`, and `ROUTES[prefix]`.
unfoldable pub find_route : String → Dict Service → Option (String × Service)
find_route url [] = none
find_route url ((prefix, service) ∷ table) =
    if starts_with url prefix then some (prefix, service) else find_route url table

-- `new Uint8Array(32)`
abbrev pub session_key : Bytes
session_key = replicate 32 0

abbrev pub reason_text : Reason → String
reason_text Reason.missing_auth_or_body = "missing_auth_or_body"
reason_text Reason.missing_auth_fields = "missing_auth_fields"
reason_text Reason.timestamp_out_of_range = "timestamp_out_of_range"
reason_text Reason.replay_nonce = "replay_nonce"
reason_text Reason.body_hash_mismatch = "body_hash_mismatch"
reason_text Reason.unknown_node = "unknown_node"
reason_text Reason.invalid_signature = "invalid_signature"

abbrev pub invalid_packet : Response
invalid_packet = reply 400 (error "Invalid crypto packet")

unfoldable pub show_checked : Checked → Response
show_checked (accepted node_id) =
    reply 200 (obj (field "ok" (bool true) (field "node_id" node_id end)))
show_checked (refused reason) = reply 403 (error (reason_text reason))
show_checked thrown = invalid_packet

-- What the crypto library needs, and the DER of the key that the table of nodes has for a node.
module _ (tools : Tools) (signer : Signer) (cipher : Cipher)
    (known_key : Value → Option Bytes) where
  unfoldable pub check_signed : ℕ → Result Value → Response
  unfolding show_checked
  check_signed now (err e) = invalid_packet
  check_signed now (ok signed) =
      show_checked (verify_signed_packet tools signer now known_key 300 none signed)

  -- POST /verify, at a time in seconds.
  unfoldable pub post_verify : ℕ → Body → Response
  unfolding check_signed is_text
  post_verify now empty = invalid_packet
  post_verify now malformed = invalid_packet
  post_verify now (json undefined) = invalid_packet
  post_verify now (json null) = invalid_packet
  post_verify now (json packet) = check_signed now (
      if is_text "nz-crypto-01" (prop "version" packet)
      then decrypt_packet tools cipher packet session_key
      else ok packet)

  -- `verify` checks routing packets, `has_keys` tells whether keys/node.json was read, and `network`
  -- is what comes of a request.
  module _ (verify : Value → Verified) (has_keys : Bool) (network : Proxied → Answer) where
    -- The requests that were sent, and the reply: `caught` after an error of the call.
    unfoldable pub relay_result :
        Response → List Proxied × Option (ℕ × Value) → List Proxied × Response
    unfolding relay
    relay_result caught (sent, result) = (sent, relay caught result)

    -- POST /route
    unfoldable pub post_route : Body → List Proxied × Response
    unfolding relay_result
    post_route (json v) =
        relay_result (reply 400 (error "Invalid request"))
          (proxy_request network has_keys routing "/route" post v false)
    post_route body = ([], reply 400 (error "Invalid request"))

    unfoldable pub proxy_payload : Service → String → Method → Parsed → List Proxied × Response
    unfolding relay_result
    proxy_payload service path method (answered r) = ([], r)
    proxy_payload service path method (payload v crypto) =
        relay_result (reply 500 (error "Gateway error"))
          (proxy_request network has_keys service path method v false)

    -- A request to one of the direct routes, without the prefix of its path.
    unfoldable pub proxy_route : Option (String × Service) → Request → List Proxied × Response
    unfolding proxy_payload
    proxy_route none r = ([], reply 404 (error "Unknown route"))
    proxy_route (some (prefix, service)) r =
        proxy_payload service (rest_of prefix r.url) r.method (parse_request_body verify r.body)

    -- The handler of the server, which keeps no state: the requests that it sends to the services,
    -- and its reply.
    unfoldable pub handle : ℕ → Request → List Proxied × Response
    unfolding post_verify post_route proxy_route find_route
    handle now r =
        if is_get r "/health"
        then ([], reply 200 ok_status)
        else if is_post r "/verify"
        then ([], post_verify now r.body)
        else if is_post r "/route"
        then post_route r.body
        else proxy_route (find_route r.url routes) r
