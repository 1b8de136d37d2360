-- ===== src/Services/Rules/Pipeline.antt =====
-- services/event, services/queue and services/rules: the way of a signed event to the rules.
use new_zone_reference.Prelude.{ℕ, String, ◌≡◌, refl, Option, some, List, [], ◌∷◌, push_bounded}
use new_zone_reference.Prelude.Int.{ℤ}
use new_zone_reference.Prelude.Dict.{Dict, get, put, get-put}
use new_zone_reference.Crypto.Routing.{is_version, Verified}
use new_zone_reference.Services.Http.{
  parse_request_body, with_payload, is_get, is_post, is_get_below, reply, Request, post, json,
}
use new_zone_reference.Js.Object.{read, slot_of}
use new_zone_reference.Services.Queue.{
  Item, returned, ensure_slot, ensure_queue, enqueue_slot, dequeue_slot, enqueue, dequeue,
}
use new_zone_reference.Js.{prop, find_field, or_empty, or_else, truthy, Value, str, obj, end, field}
use new_zone_reference.Services.Ports.{Outgoing}
use new_zone_reference.Services.Queue.Server as Queue
use new_zone_reference.Services.Event.Server.{history_request, stored}
use new_zone_reference.Services.Rules.{Config, evaluate_rules}
use new_zone_reference.Services.Rules.Server.{process_history_queue}

-- The request of `processHistoryQueue` to the queue.
abbrev pub dequeue_history : Request
dequeue_history = record {
  method = post;
  url = "/dequeue";
  body = json (obj (field "queue" (str "history") end));
}

abbrev pub to_request : Outgoing → Request
to_request o = record { method = o.method; url = o.path; body = json o.body }

enqueue_empty :
    (now : ℕ) (name : String) (content : Value) (queues : Dict (List Item))
    → get name queues ≡ some []
    → let item : Item = record { ts = now; payload = content } in
      enqueue now name content queues ≡ (put name (item ∷ []) queues, returned item)
unfolding enqueue ensure_queue ensure_slot enqueue_slot read slot_of push_bounded
enqueue_empty now name content queues there = rw (there, there) refl

dequeue_single :
    (name : String) (item : Item) (queues : Dict (List Item))
    → get name queues ≡ some (item ∷ [])
    → dequeue name queues ≡ (put name [] queues, returned (some item))
unfolding dequeue ensure_queue ensure_slot dequeue_slot read slot_of
dequeue_single name item queues there = rw (there, there) refl

module _ (property_key : Value → String) (verify : Value → Verified)
    (search_param : String → String → Option String) (number : String → Option ℤ) where
  handle-history_request :
      (now : ℕ) (hash_id event_payload : Value) (s : Queue.Server)
      → property_key (str "history") ≡ "history"
      → get "history" s.queues ≡ some []
      → (Queue.handle property_key verify search_param number now
          (to_request (history_request hash_id event_payload))
          s).0
        ≡ record s {
          queues =
              put "history"
                (record { ts = now; payload = stored hash_id event_payload } ∷ [])
                s.queues;
        }
  unfolding Queue.handle Queue.post_enqueue parse_request_body with_payload is_get is_post
      is_get_below is_version prop find_field or_empty or_else truthy
  handle-history_request now hash_id event_payload s text_key there =
      rw (text_key, enqueue_empty now "history" (stored hash_id event_payload) s.queues there) refl

  handle-dequeue_history :
      (later : ℕ) (item : Item) (s : Queue.Server)
      → property_key (str "history") ≡ "history"
      → get "history" s.queues ≡ some (item ∷ [])
      → Queue.handle property_key verify search_param number later dequeue_history s
        ≡ (record s { queues = put "history" [] s.queues }, reply 200 (Queue.item_value item))
  unfolding Queue.handle Queue.post_dequeue Queue.show_dequeued parse_request_body with_payload
      is_get is_post is_get_below is_version prop find_field or_empty or_else truthy
  handle-dequeue_history later item s text_key there =
      rw (text_key, dequeue_single "history" item s.queues there) refl

  -- When the history queue is there and has no items, and its name converts to itself, the
  -- request that POST /publish makes to the queue puts one item there, and the next pass of
  -- the rules takes it: the queue has no items again, and the rules are evaluated on the hash
  -- and the payload of the event.
  pub process_history_queue-history_request :
      (now later : ℕ) (hash_id event_payload : Value) (s : Queue.Server) (config : Config)
      → property_key (str "history") ≡ "history"
      → get "history" s.queues ≡ some []
      → let request = to_request (history_request hash_id event_payload) in
        let put_there = (Queue.handle property_key verify search_param number now request s).0 in
        let (s', taken) =
          Queue.handle property_key verify search_param number later dequeue_history put_there in
        (process_history_queue (some taken) config
          ≡ evaluate_rules (stored hash_id event_payload) config)
        × (get "history" s'.queues ≡ some [])
  unfolding process_history_queue Queue.item_value prop find_field truthy or_empty or_else
  process_history_queue-history_request now later hash_id event_payload s config text_key there =
      let item : Item = record { ts = now; payload = stored hash_id event_payload } in
      let full = put "history" (item ∷ []) s.queues in
      let held : get "history" full ≡ some (item ∷ []) =
        get-put "history" "history" (item ∷ []) s.queues in
      rw (handle-history_request now hash_id event_payload s text_key there) (
        rw (handle-dequeue_history later item (record s { queues = full }) text_key held)
          (refl, get-put "history" "history" [] full))
