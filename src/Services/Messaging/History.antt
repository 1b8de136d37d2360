-- ===== src/Services/Messaging/History.antt =====
-- services/p2p_messaging: the store against the history of the messages that were sent.
use new_zone_reference.Prelude.{
  push_all-append, ℕ, ◌≡◌, refl, sym, ◌∙◌, inl, inr, ◌&&◌, List, [], ◌∷◌, ◌++◌, arith,
  if◌then◌else◌, Bool-cases, last, push_all, push_all-last,
}
use new_zone_reference.Js.{Value, prop, or_empty, truthy}
use new_zone_reference.Crypto.Routing.{Verified}
use new_zone_reference.Services.Http.Cases.{is_get-is_post}
use new_zone_reference.Services.Http.{
  with_payload, Request, Parsed, payload, answered, parse_request_body_unguarded, is_post,
}
use new_zone_reference.Services.Messaging.{store_message, max_messages, post_send, Message, handle}

-- A request and its time.
abbrev pub Timed : Type 0
Timed = ℕ × Request

unfoldable pub handle_all : (Value → Verified) → List Timed → List Message → List Message
handle_all verify [] messages = messages
handle_all verify ((now, r) ∷ rs) messages = handle_all verify rs (handle verify now r messages).0

-- The message of a payload that has both fields.
unfoldable pub message_of : ℕ → Value → List Message
message_of now v =
    if truthy (prop "to" (or_empty v)) && truthy (prop "message" (or_empty v))
    then record { to = prop "to" (or_empty v); message = prop "message" (or_empty v); ts = now }
      ∷ []
    else []

unfoldable pub parsed_message : ℕ → Parsed → List Message
parsed_message now (payload v crypto) = message_of now v
parsed_message now (answered r) = []

-- The messages that a request sends.
unfoldable pub sent_in : (Value → Verified) → Timed → List Message
unfolding parsed_message message_of
sent_in verify (now, r) =
    if is_post r "/send"
    then parsed_message now (parse_request_body_unguarded verify r.body)
    else []

unfoldable pub sent_by : (Value → Verified) → List Timed → List Message
unfolding sent_in
sent_by verify [] = []
sent_by verify (t ∷ rs) = sent_in verify t ++ sent_by verify rs

post_send-push_all :
    (now : ℕ) (v : Value) (messages : List Message)
    → (post_send now v messages).0 ≡ push_all max_messages (message_of now v) messages
unfolding post_send message_of store_message push_all
post_send-push_all now v messages = ground arith

with_payload-push_all :
    (now : ℕ) (parsed : Parsed) (messages : List Message)
    → (with_payload parsed messages (λ v crypto. post_send now v messages)).0
      ≡ push_all max_messages (parsed_message now parsed) messages
unfolding with_payload parsed_message push_all
with_payload-push_all now (payload v crypto) messages = post_send-push_all now v messages
with_payload-push_all now (answered r) messages = refl

handle-push_all :
    (verify : Value → Verified) (now : ℕ) (r : Request) (messages : List Message)
    → (handle verify now r messages).0 ≡ push_all max_messages (sent_in verify (now, r)) messages
unfolding handle sent_in push_all
handle-push_all verify now r messages = elim (Bool-cases (is_post r "/send")) [
  | inl send ↦
      rw (send, is_get-is_post r "/health" "/send" send)
        (with_payload-push_all now (parse_request_body_unguarded verify r.body) messages)
  | inr other ↦ rw other (ground arith)
]

handle_all-push_all :
    (verify : Value → Verified) (rs : List Timed) (messages : List Message)
    → handle_all verify rs messages ≡ push_all max_messages (sent_by verify rs) messages
unfolding handle_all sent_by push_all
handle_all-push_all verify [] messages = refl
handle_all-push_all verify ((now, r) ∷ rs) messages = rw (handle-push_all verify now r messages) (
    handle_all-push_all verify rs _
    ∙ sym (push_all-append max_messages (sent_in verify (now, r)) (sent_by verify rs) messages))

-- After any requests to a server that starts without messages, it holds the last 500 of the messages
-- that the requests sent, in their order, and all of them if there were fewer. A request sends a
-- message when it is a POST to /send whose body is admitted and has a recipient and a text.
pub handle_all-last :
    (verify : Value → Verified) (rs : List Timed)
    → handle_all verify rs [] ≡ last max_messages (sent_by verify rs)
unfolding last
handle_all-last verify rs =
    handle_all-push_all verify rs [] ∙ push_all-last max_messages (sent_by verify rs) []
