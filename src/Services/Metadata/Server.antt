-- ===== src/Services/Metadata/Server.antt =====
-- services/metadata/server.js: the HTTP interface of the metadata.
use new_zone_reference.Prelude.{
  String, Bool, Option, none, some, List, [], ◌∷◌, ◌++◌, if◌then◌else◌,
}
use new_zone_reference.Prelude.Dict.{Dict, put}
use new_zone_reference.Js.{Value, undefined, bool, str, obj, end, field, truthy, prop, or_empty}
use new_zone_reference.Js.Object.{Slot, own, inherited, missing, read}
use new_zone_reference.Crypto.Routing.{Verified}
use new_zone_reference.Services.Http.{
  Request, Response, reply, parse_request_body, with_payload, rest_of, error, ok_status, not_found,
  is_get, is_get_below, is_post,
}
use new_zone_reference.Services.Ports.{Outgoing, log_event}
use new_zone_reference.Services.Metadata.{generate_metadata_proof, verify_metadata_proof}

-- The store, and the log requests that were started.
pub record Server : Type 0 where
  pub store : Dict Value
  pub sent : List Outgoing

abbrev pub log : String → Value → Server → Server
log name content s = record s { sent = s.sent ++ log_event "metadata" name content ∷ [] }

-- The reply to GET /get/<key>: `key in store` also finds what `Object.prototype` has, a function that
-- the JSON leaves out.
unfoldable pub show_value : String → Slot Value → Response
show_value key (own v) = reply 200 (obj (field "key" (str key) (field "value" v end)))
show_value key inherited = reply 200 (obj (field "key" (str key) (field "value" undefined end)))
show_value key missing = not_found

-- `property_key` converts a value to the name of a property, `verify` checks routing packets, and
-- `sha256_json` hashes the JSON text of a value.
module _ (property_key : Value → String) (verify : Value → Verified)
    (sha256_json : Value → String) where
  -- POST /set, with the payload.
  unfoldable pub post_set : Value → Server → Server × Response
  post_set v s =
      let key = prop "key" (or_empty v) in
      let value = prop "value" (or_empty v) in
      let shown = obj (field "key" key (field "value" value end)) in
      if truthy key
      then (
        log "metadata_set" shown (record s { store = put (property_key key) value s.store }),
        reply 200 shown,
      )
      else (s, reply 400 (error "Missing key"))

  unfoldable pub show_proof : Option String → Server → Server × Response
  show_proof none s = (s, reply 400 (error "Invalid request"))
  show_proof (some proof) s =
      let shown = obj (field "proof_id" (str proof) end) in
      (log "metadata_proof_generated" shown s, reply 200 shown)

  -- POST /generate, with the payload.
  unfoldable pub post_generate : Value → Server → Server × Response
  unfolding show_proof
  post_generate v s =
      show_proof (generate_metadata_proof sha256_json (prop "metadata" (or_empty v))) s

  unfoldable pub show_valid : Option Bool → Value → Server → Server × Response
  show_valid none proof_id s = (s, reply 400 (error "Invalid request"))
  show_valid (some valid) proof_id s = (
    log "metadata_verified" (obj (field "proof_id" proof_id (field "valid" (bool valid) end))) s,
    reply 200 (obj (field "valid" (bool valid) end)),
  )

  -- POST /verify, with the payload.
  unfoldable pub post_verify : Value → Server → Server × Response
  unfolding show_valid
  post_verify v s =
      let proof_id = prop "proof_id" (or_empty v) in
      show_valid (verify_metadata_proof sha256_json (prop "metadata" (or_empty v)) proof_id)
        proof_id s

  -- The handler of the server.
  unfoldable pub handle : Request → Server → Server × Response
  unfolding post_set post_generate post_verify show_value
  handle r s =
      if is_get r "/health"
      then (s, reply 200 ok_status)
      else if is_post r "/set"
      then with_payload (parse_request_body verify r.body) s (λ v crypto. post_set v s)
      else if is_get_below r "/get/"
      then (s, show_value (rest_of "/get/" r.url) (read (rest_of "/get/" r.url) s.store))
      else if is_post r "/generate"
      then with_payload (parse_request_body verify r.body) s (λ v crypto. post_generate v s)
      else if is_post r "/verify"
      then with_payload (parse_request_body verify r.body) s (λ v crypto. post_verify v s)
      else (s, not_found)
