-- ===== src/Services/Messaging.antt =====
-- services/p2p_messaging: the store of messages, which keeps the newest 500, and its HTTP interface.
pub mod History
use new_zone_reference.Prelude.{
  ℕ, zero, suc, ◌+◌, ◌-◌, ◌*◌, ◌/◌, ◌%◌, ◌^◌, ◌≤◌, ◌<◌, String, ◌≡◌, refl, sym, ap, ◌∙◌, ◌≢◌, ◌↔◌,
  ◌⊎◌, inl, inr, Bool, true, false, not, ◌&&◌, ◌||◌, Option, none, some, List, [], ◌∷◌, ◌++◌, map,
  append_assoc, append-nil, arith, str_eq, eq_iff, eq_refl, ltb, leb, ◌==◌, if◌then◌else◌, ltb→lt,
  lt→ltb, leb→le, ==_iff, Bool-cases, Option-cases, List-cases, length, take, drop, replicate,
  filter, length-append, length-take, length-drop, length-replicate, length-filter, length-map,
  take-append-drop, take-append, drop-append, take_of_le, drop-append_of_le, drop-drop, drop-nil,
  last, length-last, last_of_le, last-last, push_bounded, length-push_bounded, push_bounded-last,
  push_all, push_all-last,
}
use new_zone_reference.Prelude.Int.{ℤ, pos}
use new_zone_reference.Js.{
  Value, Items, num, str, arr, obj, nil, cons, end, field, truthy, prop, or_empty,
}
use new_zone_reference.Crypto.Routing.{Verified}
use new_zone_reference.Services.Http.{
  Request, Response, reply, parse_request_body_unguarded, with_payload, ok_status, not_found, error,
  is_get, is_post,
}

pub record Message : Type 0 where
  pub to : Value
  pub message : Value
  pub ts : ℕ

abbrev pub max_messages : ℕ
max_messages = 500

-- `storeMessage`: the new store and the entry that it returns.
unfoldable pub store_message : ℕ → Value → Value → List Message → List Message × Message
store_message now to message messages =
    let entry : Message = record { to = to; message = message; ts = now } in
    (push_bounded max_messages entry messages, entry)

-- `listMessages`
unfoldable pub list_messages : List Message → List Message
list_messages messages = messages

unfoldable pub message_values : List Message → Items
message_values [] = nil
message_values (m ∷ messages) =
    cons (obj (field "to" m.to (field "message" m.message (field "ts" (num (pos m.ts)) end))))
      (message_values messages)

-- POST /send, with the payload.
unfoldable pub post_send : ℕ → Value → List Message → List Message × Response
post_send now v messages =
    let to = prop "to" (or_empty v) in
    let message = prop "message" (or_empty v) in
    let (kept, entry) = store_message now to message messages in
    if truthy to && truthy message
    then (kept, reply 200 (obj (field "to" entry.to (field "message" entry.message end))))
    else (messages, reply 400 (error "Invalid message"))

-- The handler of the server, with the time of the request; `verify` checks routing packets.
unfoldable pub handle : (Value → Verified) → ℕ → Request → List Message → List Message × Response
unfolding post_send message_values
handle verify now r messages =
    if is_get r "/health"
    then (messages, reply 200 ok_status)
    else if is_post r "/send"
    then with_payload (parse_request_body_unguarded verify r.body) messages
        (λ v crypto. post_send now v messages)
    else if is_get r "/messages"
    then (messages, reply 200 (arr (message_values (list_messages messages))))
    else (messages, not_found)
