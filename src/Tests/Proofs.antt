-- ===== src/Tests/Proofs.antt =====
-- The theorems about the consensus, the messages, the announcements and the signed events at concrete
-- inputs.
use new_zone_reference.Prelude.{
  true, push_bounded, String, ◌≡◌, refl, Bool, false, Option, none, some, List, [], ◌∷◌, str_eq,
  last,
}
use new_zone_reference.Prelude.Int.{ℤ, pos}
use new_zone_reference.Prelude.Dict.{get}
use new_zone_reference.Services.Storage.{get_object, store_object}
use new_zone_reference.Services.Event
use new_zone_reference.Js.Object.{own}
use new_zone_reference.Services.Storage.Server as Storage
use new_zone_reference.Js.{
  truthy, Value, Fields, undefined, bool, num, str, obj, field, end, prop, find_field, or_empty,
}
use new_zone_reference.Crypto.Routing.{Verified, refused, unsupported_version}
use new_zone_reference.Services.Http
use new_zone_reference.Services.Http.{Request, Response, reply, parse_request_body, payload}
use new_zone_reference.Services.Ports.{Outgoing}
use new_zone_reference.Services.Forward.{Answer, replied}
use new_zone_reference.Services.Metadata.{hash_json}
use new_zone_reference.Services.Consensus.Server as Consensus
use new_zone_reference.Services.Consensus.Proofs.{
  IsProven, handle-IsProven, post_verify-any_payload,
}
use new_zone_reference.Services.Messaging.{max_messages}
use new_zone_reference.Services.Messaging.History.{Timed, handle_all, sent_by, handle_all-last}
use new_zone_reference.Services.Discovery.{Nodes, on_message, announcement, show_nodes}
use new_zone_reference.Services.Discovery.Keys.{get_public_key_by_node_id-on_message}
use new_zone_reference.Services.Trust.{get_public_key_by_node_id, update_known_nodes}
use new_zone_reference.Services.Event
use new_zone_reference.Services.Event.Server as Bus
use new_zone_reference.Services.Event.Publication.{
  post_publish-stores, IsRefusal, post_publish-unverified,
}

-- Names of properties for texts, one name for all else.
abbrev name_of : Value → String
name_of (str s) = s
name_of v = "[object Object]"

abbrev refuse_all : Value → Verified
refuse_all v = refused unsupported_version

-- A hash that tells two objects apart by their name.
abbrev object_hash : Value → String
object_hash v = name_of (prop "name" v)

abbrev proposal : Consensus.Proposal
proposal = record {
  id = str "p1";
  topic = str "color";
  payload = obj (field "name" (str "red") end);
  proof = "red";
  status = Consensus.pending;
}

abbrev consensus : Consensus.Server
consensus = record { proposals = ("p1", proposal) ∷ []; foreign = []; sent = [] }

abbrev propose : Request
propose = record {
  method = Http.post;
  url = "/propose";
  body = Http.json (
      obj (
        field "id" (str "p2") (
          field "topic" (str "color")
            (field "payload" (obj (field "name" (str "blue") end)) end))));
}

abbrev no_proposals : Consensus.Server
no_proposals = record { proposals = []; foreign = []; sent = [] }

no_proposals-IsProven : IsProven name_of refuse_all object_hash no_proposals
unfolding IsProven get
no_proposals-IsProven key p there = absurd (cc)

handle-IsProven_example :
    IsProven name_of refuse_all object_hash
      (Consensus.handle name_of refuse_all object_hash propose no_proposals).0
handle-IsProven_example =
    handle-IsProven name_of refuse_all object_hash propose no_proposals no_proposals-IsProven

abbrev other_payload : Value
other_payload = obj (field "name" (str "green") end)

post_verify-any_payload_example :
    get "p1"
      (Consensus.post_verify name_of refuse_all object_hash
        (obj (
          field "id"
            (str "p1")
            (field "payload" other_payload (field "proof_id" (str "green") end))))
        consensus).0.proposals
    ≡ some (record proposal { status = Consensus.accepted })
unfolding get hash_json prop find_field
post_verify-any_payload_example =
    post_verify-any_payload name_of refuse_all object_hash "p1" "green" other_payload proposal
      consensus refl refl refl refl

abbrev send : Request
send = record {
  method = Http.post;
  url = "/send";
  body = Http.json (obj (field "to" (str "bob") (field "message" (str "hi") end)));
}

abbrev sends : List Timed
sends = (1, send) ∷ (2, record send { body = Http.empty }) ∷ (3, send) ∷ []

handle_all-last_example :
    handle_all refuse_all sends [] ≡ last max_messages (sent_by refuse_all sends)
handle_all-last_example = handle_all-last refuse_all sends

abbrev nodes : Nodes
nodes =
    on_message name_of (some (announcement "n1" "key" "10.0.0.1" (num (pos 3000))))
      (on_message name_of (some (announcement "n2" "other" "10.0.0.2" (num (pos 3001)))) [])

get_public_key_by_node_id-on_message_example :
    let nodes' =
      on_message name_of (some (announcement "n1" "forged" "10.0.0.3" undefined)) nodes in
    let table = update_known_nodes (Http.json (show_nodes nodes')) undefined in
    let before = update_known_nodes (Http.json (show_nodes nodes)) undefined in
    (get_public_key_by_node_id table "n1" ≡ some "forged")
    × (str_eq "n1" "n2" ≡ false
        → get_public_key_by_node_id table "n2" ≡ get_public_key_by_node_id before "n2")
get_public_key_by_node_id-on_message_example =
    get_public_key_by_node_id-on_message name_of "n1" "n2" "forged" "10.0.0.3" undefined nodes
      undefined refl refl refl

-- A signature is the text "good".
abbrev crypto_verify : Value → Value → Value → Option Bool
crypto_verify content key signature = some (str_eq (name_of signature) "good")

-- The storage answers with the hash, the queue with anything.
abbrev network : Outgoing → Answer
network request = replied 200 (some (obj (field "hash_id" (str "x") end)))

abbrev no_param : String → String → Option String
no_param url name = none

abbrev no_number : String → Option ℤ
no_number text = none

abbrev bus : Bus.Server
bus = record { bus = Event.empty; notified = []; sent = [] }

abbrev event_fields : Fields
event_fields = field "name" (str "x") end

abbrev forged : Value
forged = obj (
    field "payload" (obj event_fields)
      (field "signature" (str "bad") (field "public_key" (str "key") end)))

post_publish-unverified_example :
    IsRefusal refuse_all crypto_verify network no_param no_number bus
      (Bus.post_publish refuse_all crypto_verify network no_param no_number 5 forged bus)
unfolding prop find_field or_empty
post_publish-unverified_example =
    post_publish-unverified refuse_all crypto_verify network no_param no_number 5 forged bus
      (λ e. cc)

abbrev signed : Value
signed = obj (
    field "payload" (obj event_fields)
      (field "signature" (str "good") (field "public_key" (str "key") end)))

abbrev empty_storage : Storage.Server
empty_storage = record { kv = []; cas = [] }

abbrev stored_in : Storage.Server × Response
stored_in =
    Storage.handle name_of refuse_all object_hash
      (record { method = Http.post; url = "/cas/store"; body = Http.json (obj event_fields) })
      empty_storage

post_publish-stores_example :
    let (s', shown) =
      Bus.post_publish refuse_all crypto_verify network no_param no_number 5 signed bus in
    (shown ≡ reply 200 (obj (field "ok" (bool true) (field "hash_id" (str "x") end))))
    × (get_object "x" stored_in.0.cas ≡ own (obj event_fields))
    × (s'.bus.events
        ≡ push_bounded Event.max_events
            (record {
              ts = 5;
              type = str "signed_event";
              source = str "event-service";
              payload = Bus.stored (str "x") (obj event_fields);
            })
            [])
    × (s'.sent
        ≡ Bus.store_request (obj event_fields)
          ∷ Bus.history_request (str "x") (obj event_fields)
          ∷ [])
unfolding Storage.handle Storage.post_cas_store Storage.is_object parse_request_body
    Http.with_payload Http.is_get Http.is_post Http.is_get_below prop find_field truthy store_object
post_publish-stores_example =
    post_publish-stores refuse_all crypto_verify network no_param no_number name_of object_hash
      refuse_all empty_storage 5 200 event_fields (str "key") (str "good")
      (obj (field "hash_id" (str "x") end)) bus refl refl refl refl refl refl
