-- ===== src/Services/Event/Publication.antt =====
-- services/event and services/storage: what becomes of a signed event.
use new_zone_reference.Prelude.{
  ◌⊎◌, inl, inr, ◌≢◌, Bool, true, false, ◌&&◌, [], ◌∷◌, ◌++◌, push_bounded, ℕ, String, ◌≡◌, refl,
  Option, none, some,
}
use new_zone_reference.Prelude.Int.{ℤ}
use new_zone_reference.Services.Forward.{result_of, rejected, Answer, replied}
use new_zone_reference.Services.Event.{publish_event, max_events}
use new_zone_reference.Services.Event.Server.{
  after_store, enqueue_stored, announce, forward, publish, Server, store_request, history_request,
  stored, after_check, post_publish,
}
use new_zone_reference.Services.Http.{
  with_payload, is_get, is_post, is_get_below, Request, Response, reply, post, json, payload,
  parse_request_body, unanswered,
}
use new_zone_reference.Services.Storage.{store_object, generate_hash, get_object}
use new_zone_reference.Services.Storage.Integrity.{get_object-store_object}
use new_zone_reference.Js.{
  default, find_field, or_else, Value, Fields, bool, str, obj, end, field, truthy, prop, or_empty,
}
use new_zone_reference.Js.Object.{own}
use new_zone_reference.Crypto.Routing.{Verified}
use new_zone_reference.Services.Ports.{Outgoing}
use new_zone_reference.Services.Storage.Server as Storage
use new_zone_reference.Services.Http.Cases.{if_cases}
use new_zone_reference.Services.Storage.Server as Storage

-- The answer of a server that replies.
abbrev pub answer_of : Response → Answer
answer_of (reply status v) = replied status (some v)
answer_of unanswered = rejected

-- The request to the storage, on its server.
storage-handle_store :
    (property_key : Value → String) (sha256_json : Value → String)
    (storage_verify : Value → Verified) (store : Storage.Server) (fs : Fields)
    → parse_request_body storage_verify (json (obj fs)) ≡ payload (obj fs) false
    → Storage.handle property_key storage_verify sha256_json
        (record { method = post; url = "/cas/store"; body = json (obj fs) })
        store
      ≡ (
        record store { cas = (store_object sha256_json (obj fs) store.cas).0 },
        reply 200 (obj (field "hash_id" (str (sha256_json (obj fs))) end)),
      )
unfolding Storage.handle Storage.post_cas_store Storage.is_object with_payload is_get is_post
    is_get_below store_object generate_hash
storage-handle_store property_key sha256_json storage_verify store fs plain = rw plain refl

module _ (verify : Value → Verified) (crypto_verify : Value → Value → Value → Option Bool)
    (network : Outgoing → Answer) (search_param : String → String → Option String)
    (number : String → Option ℤ) where
  -- The state stays, and the reply is an error of the client.
  abbrev pub IsRefusal : Server → Server × Response → Type 0
  IsRefusal s o =
      (o.0 ≡ s) × (refusal : Value) × ((o.1 ≡ reply 400 refusal) ⊎ (o.1 ≡ reply 403 refusal))

  after_check-IsRefusal :
      (now : ℕ) (event_payload : Value) (o : Option Bool) (s : Server)
      → o ≢ some true
      → IsRefusal s
          (after_check verify crypto_verify network search_param number now event_payload o s)
  unfolding after_check
  after_check-IsRefusal now event_payload none s h = (refl, _, inl refl)
  after_check-IsRefusal now event_payload (some false) s h = (refl, _, inr refl)
  after_check-IsRefusal now event_payload (some true) s h = absurd (h refl)

  -- Unless the signature of the payload verifies with the public key that the request brings,
  -- POST /publish changes nothing: it makes no request, notifies no subscriber and publishes no
  -- event, and its reply has a status of 400 or 403.
  pub post_publish-unverified :
      (now : ℕ) (v : Value) (s : Server)
      → crypto_verify
          (prop "payload" (or_empty v))
          (prop "public_key" (or_empty v))
          (prop "signature" (or_empty v))
        ≢ some true
      → IsRefusal s (post_publish verify crypto_verify network search_param number now v s)
  unfolding post_publish
  post_publish-unverified now v s unverified =
      if_cases (IsRefusal s)
        (truthy (prop "payload" (or_empty v))
          && truthy (prop "signature" (or_empty v))
          && truthy (prop "public_key" (or_empty v)))
        (after_check-IsRefusal now _ _ s unverified) (refl, _, inl refl)

  -- When POST /publish brings a payload, an object that is no routing packet, with a signature
  -- that verifies, and the storage answers as its server does: the server of the storage then
  -- has the payload under its hash, the reply is that hash, the event with the hash is
  -- published on the bus, and a request puts it on the queue of the rules, whatever JSON the
  -- queue answers.
  pub post_publish-stores :
      (property_key : Value → String) (sha256_json : Value → String)
      (storage_verify : Value → Verified) (store : Storage.Server) (now status : ℕ) (fs : Fields)
      (key signature : Value) (body : Value) (s : Server)
      → truthy key ≡ true
      → truthy signature ≡ true
      → crypto_verify (obj fs) key signature ≡ some true
      → parse_request_body storage_verify (json (obj fs)) ≡ payload (obj fs) false
      → let r : Request = record { method = post; url = "/cas/store"; body = json (obj fs) } in
        let (store', response) = Storage.handle property_key storage_verify sha256_json r store in
        let hash_id = sha256_json (obj fs) in
        network (store_request (obj fs)) ≡ answer_of response
        → network (history_request (str hash_id) (obj fs)) ≡ replied status (some body)
        → let v =
            obj (
              field "payload"
                (obj fs)
                (field "signature" signature (field "public_key" key end))) in
          let (s', shown) = post_publish verify crypto_verify network search_param number now v s in
          (shown ≡ reply 200 (obj (field "ok" (bool true) (field "hash_id" (str hash_id) end))))
          × (get_object hash_id store'.cas ≡ own (obj fs))
          × (s'.bus.events
              ≡ push_bounded max_events
                  (record {
                    ts = now;
                    type = str "signed_event";
                    source = str "event-service";
                    payload = stored (str hash_id) (obj fs);
                  })
                  s.bus.events)
          × (s'.sent
              ≡ (s.sent ++ store_request (obj fs) ∷ [])
                ++ history_request (str hash_id) (obj fs) ∷ [])
  unfolding store_object generate_hash post_publish after_check after_store enqueue_stored announce
      forward result_of publish publish_event default prop find_field or_empty or_else truthy
  post_publish-stores property_key sha256_json storage_verify store now status fs key signature body
        s key_there signed checked plain =
      rw (storage-handle_store property_key sha256_json storage_verify store fs plain)
        (λ stored_ok queued.
          rw (key_there, signed, checked, stored_ok, queued)
            (refl, (get_object-store_object sha256_json (obj fs) store.cas refl).0, refl, refl))
