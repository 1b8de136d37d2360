-- ===== src/Services/Storage/Requests.antt =====
-- services/storage/server.js: what the requests do to the objects.
use new_zone_reference.Prelude.{String, ◌≡◌, true, some, List, [], ◌∷◌, eq_iff}
use new_zone_reference.Prelude.Dict.{get}
use new_zone_reference.Js.{Value}
use new_zone_reference.Crypto.Routing.{Verified}
use new_zone_reference.Services.Http.{
  Request, Response, parse_request_body, is_get, is_get_below, is_post,
}
use new_zone_reference.Services.Http.Cases.{if_cases, with_payload_cases}
use new_zone_reference.Services.Storage.{verify_object, generate_hash}
use new_zone_reference.Services.Storage.Integrity.{IsSound, store_object-IsSound}
use new_zone_reference.Services.Storage.Server.{
  Server, handle, post_kv_set, post_cas_store, is_object,
}

module _ (property_key : Value → String) (verify : Value → Verified)
    (sha256_json : Value → String) where
  handle-IsSound :
      (r : Request) (s : Server)
      → IsSound sha256_json s.cas
      → IsSound sha256_json (handle property_key verify sha256_json r s).0.cas
  unfolding handle post_kv_set post_cas_store
  handle-IsSound r s sound =
      let P : Server × Response → Type 0 = λ t. IsSound sha256_json t.0.cas in
      if_cases P (is_get r "/health") sound (
        if_cases P (is_post r "/kv/set")
          (with_payload_cases P (parse_request_body verify r.body) s _
            (λ v crypto e. if_cases P _ sound sound) (λ answer. sound))
          (if_cases P (is_get_below r "/kv/get/") sound (
            if_cases P (is_post r "/cas/store")
              (with_payload_cases P (parse_request_body verify r.body) s _
                (λ v crypto e.
                  if_cases P (is_object v) (store_object-IsSound sha256_json v s.cas sound) sound)
                (λ answer. sound))
              (if_cases P (is_get_below r "/cas/get/") sound (
                if_cases P (is_post r "/cas/verify")
                  (with_payload_cases P (parse_request_body verify r.body) s _ (λ v crypto e. sound)
                    (λ answer. sound))
                  sound)))))

  -- The state after a sequence of requests.
  unfoldable pub handle_all : List Request → Server → Server
  handle_all [] s = s
  handle_all (r ∷ requests) s = handle_all requests (handle property_key verify sha256_json r s).0

  handle_all-IsSound :
      (requests : List Request) (s : Server)
      → IsSound sha256_json s.cas
      → IsSound sha256_json (handle_all requests s).cas
  unfolding handle_all
  handle_all-IsSound [] s sound = sound
  handle_all-IsSound (r ∷ requests) s sound =
      handle_all-IsSound requests (handle property_key verify sha256_json r s).0
        (handle-IsSound r s sound)

  -- Whatever requests a fresh server has handled, an object that it holds under a hash verifies
  -- against that hash.
  pub handle_all-verifies :
      (requests : List Request) (hash_id : String) (v : Value)
      → get hash_id (handle_all requests (record { kv = []; cas = [] })).cas ≡ some v
      → verify_object sha256_json v hash_id ≡ true
  unfolding verify_object generate_hash
  handle_all-verifies requests hash_id v there = (eq_iff (sha256_json v) hash_id).1 (
      handle_all-IsSound requests (record { kv = []; cas = [] })
        (λ k u e. absurd (unfold get in cc)) hash_id v there)
