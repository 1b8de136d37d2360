-- ===== src/Services/Queue/Server.antt =====
-- services/queue/server.js: the HTTP interface of the queues, with the list of test tasks.
use new_zone_reference.Prelude.{
  ℕ, String, true, Option, none, some, List, [], ◌∷◌, ◌++◌, str_eq, if◌then◌else◌,
}
use new_zone_reference.Prelude.Int.{ℤ, pos}
use new_zone_reference.Js.{
  Value, Items, null, bool, num, str, arr, obj, nil, cons, end, field, prop, or_empty,
}
use new_zone_reference.Crypto.Routing.{Verified}
use new_zone_reference.Services.Http.{
  Request, Response, reply, unanswered, parse_request_body, with_payload, error, ok_status,
  not_found, is_get, is_get_below, is_post,
}
use new_zone_reference.Services.Queue.{
  Item, Queues, Outcome, returned, thrown, enqueue, dequeue, peek, list_queues, Size,
}

pub record Server : Type 0 where
  pub tasks : List Value
  pub queues : Queues

unfoldable pub item_value : Item → Value
item_value item = obj (field "ts" (num (pos item.ts)) (field "payload" item.payload end))

unfoldable pub item_values : List Item → Items
item_values [] = nil
item_values (i ∷ items) = cons (item_value i) (item_values items)

unfoldable pub size_values : List Size → Items
size_values [] = nil
size_values (s ∷ sizes) =
    cons (obj (field "name" (str s.name) (field "size" (num (pos s.size)) end))) (size_values sizes)

unfoldable pub values : List Value → Items
values [] = nil
values (v ∷ vs) = cons v (values vs)

-- The reply to POST /enqueue, whose errors are caught.
unfoldable pub show_enqueued : Outcome Item → Response
show_enqueued (returned item) = reply 200 (item_value item)
show_enqueued thrown = reply 400 (error "Invalid enqueue")

-- `item || { empty: true }`
unfoldable pub show_dequeued : Outcome (Option Item) → Response
show_dequeued (returned (some item)) = reply 200 (item_value item)
show_dequeued (returned none) = reply 200 (obj (field "empty" (bool true) end))
show_dequeued thrown = reply 400 (error "Invalid dequeue")

-- The reply to GET /peek, whose errors are not caught.
unfoldable pub show_peeked : Outcome (List Item) → Response
show_peeked (returned items) = reply 200 (arr (item_values items))
show_peeked thrown = unanswered

-- `property_key` converts a value to the name of a property, `verify` checks routing packets, and
-- `search_param` and `number` are `searchParams.get` and `Number`, which may give NaN.
module _ (property_key : Value → String) (verify : Value → Verified)
    (search_param : String → String → Option String) (number : String → Option ℤ) where
  -- POST /push, with the payload.
  unfoldable pub post_push : Value → Server → Server × Response
  post_push v s =
      let task = obj (
        field "type" (prop "type" (or_empty v))
          (field "payload" (prop "payload" (or_empty v)) end)) in
      (record s { tasks = s.tasks ++ task ∷ [] }, reply 200 task)

  -- POST /enqueue, with the payload.
  unfoldable pub post_enqueue : ℕ → Value → Server → Server × Response
  unfolding show_enqueued
  post_enqueue now v s =
      let (queues, outcome) =
        enqueue now (property_key (prop "queue" (or_empty v))) (prop "payload" (or_empty v))
          s.queues in
      (record s { queues = queues }, show_enqueued outcome)

  -- POST /dequeue, with the payload.
  unfoldable pub post_dequeue : Value → Server → Server × Response
  unfolding show_dequeued
  post_dequeue v s =
      let (queues, outcome) = dequeue (property_key (prop "queue" (or_empty v))) s.queues in
      (record s { queues = queues }, show_dequeued outcome)

  -- `Number(x || 10)`, where NaN takes nothing of a queue.
  unfoldable pub peek_limit : Option String → ℤ
  peek_limit none = pos 10
  peek_limit (some text) =
      if str_eq text "" then pos 10 else elim (number text) [ none ↦ pos 0 | some n ↦ n ]

  -- The name of the queue; a parameter that is not there is `null`.
  unfoldable pub peek_name : Option String → String
  peek_name none = property_key null
  peek_name (some name) = property_key (str name)

  -- GET /peek
  unfoldable pub get_peek : String → Server → Server × Response
  unfolding show_peeked peek_limit peek_name
  get_peek url s =
      let (queues, outcome) =
        peek (peek_name (search_param url "queue")) (peek_limit (search_param url "limit"))
          s.queues in
      (record s { queues = queues }, show_peeked outcome)

  -- The handler of the server, with the time of the request.
  unfoldable pub handle : ℕ → Request → Server → Server × Response
  unfolding post_push post_enqueue post_dequeue get_peek
  handle now r s =
      if is_get r "/health"
      then (s, reply 200 ok_status)
      else if is_post r "/push"
      then with_payload (parse_request_body verify r.body) s (λ v crypto. post_push v s)
      else if is_get r "/tasks"
      then (s, reply 200 (arr (values s.tasks)))
      else if is_post r "/enqueue"
      then with_payload (parse_request_body verify r.body) s (λ v crypto. post_enqueue now v s)
      else if is_post r "/dequeue"
      then with_payload (parse_request_body verify r.body) s (λ v crypto. post_dequeue v s)
      else if is_get_below r "/peek"
      then get_peek r.url s
      else if is_get r "/queues"
      then (s, reply 200 (arr (size_values (list_queues s.queues))))
      else (s, not_found)
