-- ===== src/Tests/Requests.antt =====
-- The theorems about the requests and the routing packets at concrete inputs.
use new_zone_reference.Prelude.{
  ◌≢◌, eq_iff, refl, ℕ, ◌*◌, ◌≤◌, String, ◌≡◌, Bool, true, false, Option, none, some, [], ◌∷◌,
  arith, str_eq, if◌then◌else◌,
}
use new_zone_reference.Prelude.Dict.{get, put}
use new_zone_reference.Js.{truthy, find_field, Value, str, obj, field, end, prop, or_empty}
use new_zone_reference.Js.Object.{is_inherited}
use new_zone_reference.Crypto.Routing.Canonical.{build_signing_payload-Alike, objects, swap}
use new_zone_reference.Crypto.Routing.{
  Platform, NodeKeys, Verified, accepted, refused, unsigned, is_version, skew_ms, text_of,
  build_signing_payload, unsupported_version, verify_routing_packet, sign_routing_packet,
}
use new_zone_reference.Crypto.Routing.Packets.{
  verify_routing_packet-accepted, verify_routing_packet-sign_routing_packet,
}
use new_zone_reference.Services.Http
use new_zone_reference.Services.Http.{
  Request, parse_request_body, reply, after, is_post, is_get_below, payload, unwrap,
}
use new_zone_reference.Services.State.Bounds.{IsValid}
use new_zone_reference.Services.State.Server as StateServer
use new_zone_reference.Services.State.Requests.{handle-IsValid, handle-handle_set}
use new_zone_reference.Services.Storage
use new_zone_reference.Services.Storage.Server as StorageServer
use new_zone_reference.Services.Storage.Requests.{handle_all, handle_all-verifies}

-- Names of properties for texts, one name for all else.
abbrev name_of : Value → String
name_of (str s) = s
name_of v = "[object Object]"

-- A node that knows no other one.
abbrev refuse_all : Value → Verified
refuse_all v = refused unsupported_version

abbrev set_body : Value
set_body = obj (field "key" (str "color") (field "value" (str "red") end))

abbrev set_request : Request
set_request = record { method = Http.post; url = "/set"; body = Http.json set_body }

abbrev get_request : Request
get_request = record { method = Http.get; url = "/get/color"; body = Http.empty }

empty-IsValid : IsValid []
empty-IsValid = record { distinct = tt; bounded = omega arith }

plain_key :
    (v : Value) (crypto : Bool)
    → parse_request_body refuse_all set_request.body ≡ payload v crypto
    → is_inherited (name_of (prop "key" (or_empty v))) ≡ false
unfolding parse_request_body is_inherited prop find_field or_empty
plain_key v crypto e = let same : set_body ≡ v = cc in rw (← same) refl

handle-IsValid_example : IsValid (StateServer.handle name_of refuse_all 5 set_request []).0
handle-IsValid_example = handle-IsValid name_of refuse_all 5 set_request [] plain_key empty-IsValid

handle-handle_set_example :
    (StateServer.handle name_of refuse_all 9 get_request
      (StateServer.handle name_of refuse_all 5 set_request []).0).1
    ≡ reply 200 (
        obj (
          field "key"
            (str (after "/get/" "/get/color"))
            (field "value" (prop "value" (or_empty set_body)) end)))
unfolding parse_request_body is_post is_get_below after prop find_field or_empty
handle-handle_set_example =
    handle-handle_set name_of refuse_all 5 9 set_request get_request [] set_body false refl refl
      refl refl

-- A hash that tells two objects apart by their name.
abbrev object_hash : Value → String
object_hash v = name_of (prop "name" v)

abbrev store_request : Request
store_request = record {
  method = Http.post;
  url = "/cas/store";
  body = Http.json (obj (field "name" (str "x") end));
}

handle_all-verifies_example :
    Storage.verify_object object_hash (obj (field "name" (str "x") end)) "x" ≡ true
unfolding handle_all StorageServer.handle prop find_field parse_request_body get Http.is_get is_post
    is_get_below Http.with_payload truthy Storage.store_object put
handle_all-verifies_example =
    handle_all-verifies name_of refuse_all object_hash (store_request ∷ []) "x"
      (obj (field "name" (str "x") end)) refl

-- Signatures that are the signed text, after a mark.
abbrev platform : Platform
platform = record {
  sign = λ key text. "signature";
  verify = λ key text signature. some (str_eq signature "signature");
  json = name_of;
}

abbrev node_keys : NodeKeys
node_keys = record { ed25519_private = "private"; ed25519_public = "public" }

abbrev lookup : String → Option String
lookup id = if str_eq id "node-1" then some "public" else none

abbrev packet : Value
packet = unsigned (str "node-1") 1000 "abcd" (str "hello") (field "signature" (str "signature") end)

verify_routing_packet-sign_routing_packet_example :
    verify_routing_packet platform 2000 lookup 300 packet ≡ accepted "node-1" (str "hello")
unfolding sign_routing_packet
verify_routing_packet-sign_routing_packet_example =
    verify_routing_packet-sign_routing_packet platform node_keys "node-1" "abcd" (str "hello") 1000
      2000 lookup 300 packet (λ text. refl) (λ text. refl) refl refl refl (omega arith) refl

packet_accepted :
    verify_routing_packet platform 2000 lookup 300 packet ≡ accepted "node-1" (str "hello")
unfolding verify_routing_packet prop find_field truthy unsigned
packet_accepted = refl

verify_routing_packet-accepted_example :
    (public_key : String) × (skew : ℕ) × (is_version (prop "version" packet) ≡ true)
    × (lookup "node-1" ≡ some public_key)
    × (platform.verify public_key
          (build_signing_payload platform.json packet)
          (text_of (prop "signature" packet))
        ≡ some true)
    × (skew_ms 2000 (prop "ts" packet) ≡ some skew)
    × (skew ≤ 300 * 1000)
    × (prop "payload" packet ≡ str "hello")
verify_routing_packet-accepted_example =
    verify_routing_packet-accepted platform 2000 lookup 300 packet "node-1" (str "hello")
      packet_accepted

abbrev sent_packet : Value
sent_packet = obj (
    field "version" (str "nz-routing-crypto-01")
      (field "payload" (obj (field "b" (str "2") (field "a" (str "1") end))) end))

-- The same fields in another order, also those of the payload.
abbrev received_packet : Value
received_packet = obj (
    field "payload" (obj (field "a" (str "1") (field "b" (str "2") end)))
      (field "version" (str "nz-routing-crypto-01") end))

abbrev b_name : String
b_name = "b"

abbrev a_name : String
a_name = "a"

names_differ : b_name ≢ a_name
names_differ e = let no : false ≡ true = (eq_iff b_name a_name).1 e in absurd (cc)

build_signing_payload-Alike_example :
    build_signing_payload name_of sent_packet ≡ build_signing_payload name_of received_packet
unfolding prop find_field
build_signing_payload-Alike_example =
    build_signing_payload-Alike name_of sent_packet received_packet refl refl refl refl
      (objects (swap "b" "a" (str "2") (str "1") end names_differ))
