-- ===== src/Services/Identity/Server.antt =====
-- services/identity/server.js: the HTTP interface of the identities.
use new_zone_reference.Prelude.{
  ℕ, String, Bool, Option, none, some, List, [], ◌∷◌, ◌++◌, if◌then◌else◌,
}
use new_zone_reference.Js.{Value, bool, str, obj, end, field, truthy, prop, or_empty}
use new_zone_reference.Crypto.Routing.{Verified, Platform, NodeKeys, sign_routing_packet}
use new_zone_reference.Services.Http.{
  Request, Response, reply, parse_request_body, with_payload, error, ok_status, not_found, is_get,
  is_post, post,
}
use new_zone_reference.Services.Ports.{Outgoing, log_event, gateway}
use new_zone_reference.Services.Identity.{generate_identity, verify_identity}

-- The service has no state but the requests that it has started without waiting.
abbrev pub Server : Type 0
Server = List Outgoing

abbrev pub log : String → Value → Server → Server
log name content sent = sent ++ log_event "identity" name content ∷ []

-- The keys that were read from keys/node.json.
pub record Node : Type 0 where
  pub keys : NodeKeys
  pub id : Value

-- The reply to POST /generate; `none` is a failure of node:crypto.
unfoldable pub post_generate : Option NodeKeys → Server → Server × Response
post_generate none sent = (sent, reply 500 (error "Key generation failed"))
post_generate (some pair) sent = (
  log "keypair_generated" (obj (field "public_key" (str pair.ed25519_public) end)) sent,
  reply 200 (
      obj (
        field "public_key" (str pair.ed25519_public)
          (field "private_key" (str pair.ed25519_private) end))),
)

-- POST /generate-id, with the identifier.
unfoldable pub show_id : Option String → Server → Server × Response
show_id none sent = (sent, reply 400 (error "Invalid request"))
show_id (some id) sent = (
  log "identity_generated" (obj (field "id" (str id) end)) sent,
  reply 200 (obj (field "identity_id" (str id) end)),
)

-- POST /verify-id, with the answer.
unfoldable pub show_valid : Option Bool → Value → Server → Server × Response
show_valid none identity_id sent = (sent, reply 400 (error "Invalid request"))
show_valid (some valid) identity_id sent = (
  log "identity_verified" (obj (field "identity_id" identity_id (field "valid" (bool valid) end)))
      sent,
  reply 200 (obj (field "valid" (bool valid) end)),
)

-- `platform` signs, `sha256_hex` hashes, `verify` checks routing packets, and `proxy` is the answer
-- of the gateway to a request, as an object with the status and the body.
module _ (platform : Platform) (sha256_hex : String → String) (verify : Value → Verified)
    (proxy : Outgoing → Value) where
  unfoldable pub forward_packet : Option Value → Response
  forward_packet none = reply 400 (error "Invalid request")
  forward_packet (some packet) = reply 200 (
      proxy
        (record { service = gateway; method = post; path = "/metadata/generate"; body = packet }))

  -- POST /metadata-info, with the payload, at a time and with a random nonce.
  unfoldable pub post_metadata_info : Option Node → ℕ → String → Value → Response
  unfolding forward_packet
  post_metadata_info none now nonce v = reply 500 (error "Node keys not loaded")
  post_metadata_info (some node) now nonce v =
      let sent = forward_packet (sign_routing_packet platform node.keys node.id v now nonce) in
      if truthy node.id then sent else reply 500 (error "Node keys not loaded")

  -- The handler of the server, with the key pair that node:crypto would generate.
  unfoldable pub handle :
      Option Node → Option NodeKeys → ℕ → String → Request → Server → Server × Response
  unfolding post_generate show_id show_valid post_metadata_info
  handle node pair now nonce r sent =
      if is_get r "/health"
      then (sent, reply 200 ok_status)
      else if is_post r "/generate"
      then post_generate pair sent
      else if is_post r "/generate-id"
      then with_payload (parse_request_body verify r.body) sent
          (λ v crypto. show_id (generate_identity sha256_hex (prop "input" (or_empty v))) sent)
      else if is_post r "/verify-id"
      then with_payload (parse_request_body verify r.body) sent (λ v crypto.
        show_valid
          (verify_identity sha256_hex (prop "input" (or_empty v)) (prop "identity_id" (or_empty v)))
          (prop "identity_id" (or_empty v)) sent)
      else if is_post r "/metadata-info"
      then with_payload (parse_request_body verify r.body) sent
          (λ v crypto. (sent, post_metadata_info node now nonce v))
      else (sent, not_found)
