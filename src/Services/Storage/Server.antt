-- ===== src/Services/Storage/Server.antt =====
-- services/storage/server.js: the HTTP interface of the storage, with the key-value mode.
use new_zone_reference.Prelude.{String, Bool, true, false, ◌&&◌, if◌then◌else◌}
use new_zone_reference.Prelude.Dict.{Dict, put}
use new_zone_reference.Js.{
  Value, undefined, bool, str, arr, obj, end, field, truthy, prop, or_empty,
}
use new_zone_reference.Js.Object.{Slot, own, inherited, missing, read}
use new_zone_reference.Crypto.Routing.{Verified}
use new_zone_reference.Services.Http.{
  Request, Response, reply, parse_request_body, with_payload, rest_of, error, ok_status, not_found,
  is_get, is_get_below, is_post,
}
use new_zone_reference.Services.Storage.{Store, get_object, store_object, verify_object}

pub record Server : Type 0 where
  pub kv : Dict Value
  pub cas : Store

-- The reply to GET /kv/get/<key>: `key in STORE_KV` also finds what `Object.prototype` has, a function
-- that the JSON leaves out.
unfoldable pub show_kv : String → Slot Value → Response
show_kv key (own v) = reply 200 (obj (field "key" (str key) (field "value" v end)))
show_kv key inherited = reply 200 (obj (field "key" (str key) (field "value" undefined end)))
show_kv key missing = not_found

-- The reply to GET /cas/get/<hash_id>; of a function the JSON is no text, so that the reply is empty.
unfoldable pub show_object : Slot Value → Response
show_object (own v) = reply 200 v
show_object inherited = reply 200 undefined
show_object missing = not_found

-- `payload && typeof payload === "object"`
unfoldable pub is_object : Value → Bool
is_object (arr xs) = true
is_object (obj fs) = true
is_object v = false

-- `property_key` converts a value to the name of a property, `verify` checks routing packets, and
-- `sha256_json` hashes the JSON text of a value.
module _ (property_key : Value → String) (verify : Value → Verified)
    (sha256_json : Value → String) where
  -- POST /kv/set, with the payload.
  unfoldable pub post_kv_set : Value → Server → Server × Response
  post_kv_set v s =
      let key = prop "key" (or_empty v) in
      let value = prop "value" (or_empty v) in
      if truthy key
      then (
        record s { kv = put (property_key key) value s.kv },
        reply 200 (obj (field "key" key (field "value" value end))),
      )
      else (s, reply 400 (error "Missing key"))

  -- POST /cas/store, with the payload.
  unfoldable pub post_cas_store : Value → Server → Server × Response
  unfolding is_object
  post_cas_store v s =
      let (cas, hash_id) = store_object sha256_json v s.cas in
      if is_object v
      then (record s { cas = cas }, reply 200 (obj (field "hash_id" (str hash_id) end)))
      else (s, reply 400 (error "Invalid object"))

  -- `verifyObject(object, hash_id)`, where only a text can be the hash.
  unfoldable pub verify_against : Value → Value → Bool
  verify_against object (str hash_id) = verify_object sha256_json object hash_id
  verify_against object v = false

  -- POST /cas/verify, with the payload.
  unfoldable pub post_cas_verify : Value → Response
  unfolding verify_against
  post_cas_verify v =
      let object = prop "object" (or_empty v) in
      let hash_id = prop "hash_id" (or_empty v) in
      if truthy object && truthy hash_id
      then reply 200 (obj (field "ok" (bool (verify_against object hash_id)) end))
      else reply 400 (error "Missing object or hash_id")

  -- The handler of the server.
  unfoldable pub handle : Request → Server → Server × Response
  unfolding post_kv_set post_cas_store post_cas_verify show_kv show_object
  handle r s =
      if is_get r "/health"
      then (s, reply 200 ok_status)
      else if is_post r "/kv/set"
      then with_payload (parse_request_body verify r.body) s (λ v crypto. post_kv_set v s)
      else if is_get_below r "/kv/get/"
      then (s, show_kv (rest_of "/kv/get/" r.url) (read (rest_of "/kv/get/" r.url) s.kv))
      else if is_post r "/cas/store"
      then with_payload (parse_request_body verify r.body) s (λ v crypto. post_cas_store v s)
      else if is_get_below r "/cas/get/"
      then (s, show_object (get_object (rest_of "/cas/get/" r.url) s.cas))
      else if is_post r "/cas/verify"
      then with_payload (parse_request_body verify r.body) s (λ v crypto. (s, post_cas_verify v))
      else (s, not_found)
