-- ===== src/Services/Event/Server.antt =====
-- services/event/server.js: signed events and the HTTP interface of the event bus.
use new_zone_reference.Prelude.{
  str_eq, ℕ, String, Bool, true, false, ◌&&◌, Option, none, some, List, [], ◌∷◌, ◌++◌, ◌==◌,
  if◌then◌else◌,
}
use new_zone_reference.Prelude.Int.{ℤ, pos}
use new_zone_reference.Js.{
  Value, Items, undefined, null, bool, num, str, arr, obj, nil, cons, end, field, truthy, prop,
  or_empty,
}
use new_zone_reference.Crypto.Routing.{Verified}
use new_zone_reference.Services.Ports.{Outgoing, storage, queue}
use new_zone_reference.Services.Forward.{Answer, result_of}
use new_zone_reference.Services.Event.{
  Bus, Event, Subscription, Notification, publish_event, get_events, add_subscription,
  remove_subscription, list_subscriptions,
}
use new_zone_reference.Services.Http.{
  Request, Response, reply, unanswered, post, parse_request_body_unguarded, with_payload, after,
  ok_status, not_found, error, is_get, is_get_below, is_post, is_delete_below,
}

-- The bus, the requests to subscribers that were started, and the requests to other services that
-- were made.
pub record Server : Type 0 where
  pub bus : Bus
  pub notified : List Notification
  pub sent : List Outgoing

unfoldable pub event_value : Event → Value
event_value e = obj (
    field "ts" (num (pos e.ts))
      (field "type" e.type (field "source" e.source (field "payload" e.payload end))))

unfoldable pub event_values : List Event → Items
unfolding event_value
event_values [] = nil
event_values (e ∷ events) = cons (event_value e) (event_values events)

unfoldable pub subscription_values : List Subscription → Items
subscription_values [] = nil
subscription_values (s ∷ subs) =
    cons (obj (field "id" (str s.id) (field "type" s.type (field "callback" s.callback end))))
      (subscription_values subs)

-- `publishEvent`, on the server.
unfoldable pub publish : ℕ → Value → Value → Value → Server → Server × Event
publish now type source content s =
    let (bus, event, started) = publish_event now type source content s.bus in
    (record s { bus = bus; notified = s.notified ++ started }, event)

-- The request that stores the payload.
abbrev pub store_request : Value → Outgoing
store_request event_payload = record {
  service = storage;
  method = post;
  path = "/cas/store";
  body = event_payload;
}

-- `{ hash_id, payload: eventPayload }`
abbrev pub stored : Value → Value → Value
stored hash_id event_payload = obj (field "hash_id" hash_id (field "payload" event_payload end))

-- The request that puts the event on the history queue, for the rules.
abbrev pub history_request : Value → Value → Outgoing
history_request hash_id event_payload = record {
  service = queue;
  method = post;
  path = "/enqueue";
  body = obj (field "queue" (str "history") (field "payload" (stored hash_id event_payload) end));
}

-- `verify` checks routing packets; `crypto_verify` is `crypto.verify` of the JSON text of a value
-- with a public key and a signature, where `none` is an error; `network` is what comes of a request;
-- `search_param` and `number` are `searchParams.get` and `Number`, which may give NaN.
module _ (verify : Value → Verified) (crypto_verify : Value → Value → Value → Option Bool)
    (network : Outgoing → Answer) (search_param : String → String → Option String)
    (number : String → Option ℤ) where
  -- `forward`
  unfoldable pub forward : Outgoing → Option (ℕ × Value)
  unfolding result_of
  forward request = result_of "Invalid JSON from target" "Forward error" (network request)

  -- What follows when the payload stands in the storage, with the answer of the queue.
  unfoldable pub announce : ℕ → Value → Value → Option (ℕ × Value) → Server → Server × Response
  unfolding publish
  announce now event_payload hash_id none s = (s, unanswered)
  announce now event_payload hash_id (some ignored) s = (
    (publish now (str "signed_event") (str "event-service") (stored hash_id event_payload) s).0,
    reply 200 (obj (field "ok" (bool true) (field "hash_id" hash_id end))),
  )

  unfoldable pub enqueue_stored : ℕ → Value → Value → Server → Server × Response
  unfolding announce forward
  enqueue_stored now event_payload undefined s = (s, unanswered)
  enqueue_stored now event_payload null s = (s, unanswered)
  enqueue_stored now event_payload body s =
      let request = history_request (prop "hash_id" body) event_payload in
      announce now event_payload (prop "hash_id" body) (forward request)
        (record s { sent = s.sent ++ request ∷ [] })

  -- What follows the answer of the storage.
  unfoldable pub after_store : ℕ → Value → Option (ℕ × Value) → Server → Server × Response
  unfolding enqueue_stored
  after_store now event_payload none s = (s, unanswered)
  after_store now event_payload (some (status, body)) s =
      let next = enqueue_stored now event_payload body s in
      if status == 200
      then next
      else (s, reply 500 (obj (field "error" (str "CAS store failed") (field "detail" body end))))

  -- What follows the check of the signature.
  unfoldable pub after_check : ℕ → Value → Option Bool → Server → Server × Response
  unfolding after_store forward
  after_check now event_payload none s = (s, reply 400 (error "Invalid signature or key"))
  after_check now event_payload (some false) s = (s, reply 403 (error "Invalid signature"))
  after_check now event_payload (some true) s =
      after_store now event_payload (forward (store_request event_payload))
        (record s { sent = s.sent ++ store_request event_payload ∷ [] })

  -- POST /publish, with the payload.
  unfoldable pub post_publish : ℕ → Value → Server → Server × Response
  unfolding after_check
  post_publish now v s =
      let event_payload = prop "payload" (or_empty v) in
      let signature = prop "signature" (or_empty v) in
      let public_key = prop "public_key" (or_empty v) in
      if truthy event_payload && truthy signature && truthy public_key
      then after_check now event_payload (crypto_verify event_payload public_key signature) s
      else (s, reply 400 (error "Missing fields"))

  -- POST /event, with the payload.
  unfoldable pub post_event : ℕ → Value → Server → Server × Response
  unfolding publish event_value
  post_event now v s =
      let (s', event) =
        publish now (prop "type" (or_empty v)) (prop "source" (or_empty v))
          (prop "payload" (or_empty v)) s in
      (s', reply 200 (obj (field "ok" (bool true) (field "event" (event_value event) end))))

  -- `Number(limit || 50)`; NaN is cut off to 0 by `slice`.
  unfoldable pub limit_of : Option String → ℤ
  limit_of none = pos 50
  limit_of (some text) =
      if str_eq text "" then pos 50 else elim (number text) [ none ↦ pos 0 | some n ↦ n ]

  -- POST /subscribe, with the payload and the random identifier.
  unfoldable pub post_subscribe : String → Value → Server → Server × Response
  post_subscribe id v s =
      let (bus, id') =
        add_subscription id (prop "type" (or_empty v)) (prop "callback" (or_empty v)) s.bus in
      (record s { bus = bus }, reply 200 (obj (field "subscription_id" (str id') end)))

  -- The handler of the server, with the time and a random identifier.
  unfoldable pub handle : ℕ → String → Request → Server → Server × Response
  unfolding post_publish post_event post_subscribe limit_of event_values subscription_values
  handle now id r s =
      if is_get r "/health"
      then (s, reply 200 ok_status)
      else if is_post r "/publish"
      then with_payload (parse_request_body_unguarded verify r.body) s
          (λ v crypto. post_publish now v s)
      else if is_post r "/event"
      then with_payload (parse_request_body_unguarded verify r.body) s
          (λ v crypto. post_event now v s)
      else if is_get_below r "/events"
      then (
        s,
        reply 200 (
            arr (
              event_values (
                get_events (search_param r.url "type") (limit_of (search_param r.url "limit"))
                  s.bus))),
      )
      else if is_post r "/subscribe"
      then with_payload (parse_request_body_unguarded verify r.body) s
          (λ v crypto. post_subscribe id v s)
      else if is_get r "/subscriptions"
      then (s, reply 200 (arr (subscription_values (list_subscriptions s.bus))))
      else if is_delete_below r "/subscriptions/"
      then (
        record s { bus = remove_subscription (after "/subscriptions/" r.url) s.bus },
        reply 200 (obj (field "removed" (str (after "/subscriptions/" r.url)) end)),
      )
      else (s, not_found)
