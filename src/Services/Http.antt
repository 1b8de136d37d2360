-- ===== src/Services/Http.antt =====
-- What the HTTP servers of the services share: the requests, the replies, and the reading of a body
-- that may be a routing packet (the helper `parseRequestBodyWithCrypto`, which each server has).
pub mod Cases
use new_zone_reference.Prelude.{
  ℕ, String, Bool, true, false, ◌&&◌, List, [], ◌∷◌, str_eq, if◌then◌else◌,
}
use Prim.Native.String as Text
use text.Mathlib.Text.{starts_with}
use new_zone_reference.Js.{
  Value, Items, undefined, null, str, obj, nil, cons, end, field, truthy, prop,
}
use new_zone_reference.Crypto.Routing.{Reason, Verified, accepted, refused, thrown, is_version}

-- A body: none, a text that is no JSON, or a JSON value.
pub data Body : Type 0 where
  empty : Body
  malformed : Body
  json : Value → Body

-- The methods that the servers name, and any other one.
pub data Method : Type 0 where
  get post delete : Method
  other : String → Method

pub record Request : Type 0 where
  pub method : Method
  pub url : String
  pub body : Body

-- What the client sees: a status with the value that the reply holds as JSON, or nothing, where an
-- error leaves the request without a reply.
pub data Response : Type 0 where
  reply : ℕ → Value → Response
  unanswered : Response

abbrev pub error : String → Value
error text = obj (field "error" (str text) end)

abbrev pub reason_text : Reason → String
reason_text Reason.unsupported_version = "unsupported-version"
reason_text Reason.missing_node_id = "missing-node-id"
reason_text Reason.invalid_ts = "invalid-ts"
reason_text Reason.invalid_nonce = "invalid-nonce"
reason_text Reason.missing_signature = "missing-signature"
reason_text Reason.ts_skew = "ts-skew"
reason_text Reason.unknown_node = "unknown-node"
reason_text Reason.invalid_signature = "invalid-signature"

-- `crypto` tells whether the payload came in a routing packet.
pub data Parsed : Type 0 where
  payload : Value → Bool → Parsed
  answered : Response → Parsed

unfoldable pub unwrap : Verified → Parsed
unwrap (accepted node_id v) = payload v true
unwrap (refused reason) = answered (reply 403 (error (reason_text reason)))
unwrap thrown = answered unanswered

-- `parseRequestBodyWithCrypto`, with the check of routing packets by the node's keys.
unfoldable pub parse_request_body : (Value → Verified) → Body → Parsed
unfolding unwrap is_version
parse_request_body verify empty = payload null false
parse_request_body verify malformed = answered (reply 400 (error "Invalid JSON"))
parse_request_body verify (json v) =
    if truthy v && is_version (prop "version" v) then unwrap (verify v) else payload v false

-- The variant whose test is `parsed.version === ...` without a look at `parsed`: of `null` that is a
-- `TypeError`, after which nothing is replied.
unfoldable pub parse_request_body_unguarded : (Value → Verified) → Body → Parsed
unfolding unwrap is_version parse_request_body
parse_request_body_unguarded verify (json null) = answered unanswered
parse_request_body_unguarded verify (json undefined) = answered unanswered
parse_request_body_unguarded verify body = parse_request_body verify body

-- Running a handler on a payload that was read.
unfoldable pub with_payload {ℓ} :
    {S : Type ℓ} → Parsed → S → (Value → Bool → S × Response) → S × Response
with_payload (payload v crypto) s handler = handler v crypto
with_payload (answered r) s handler = (s, r)

-- `url.split(prefix)[1]`, for a URL that starts with the prefix.
unfoldable pub after : String → String → String
after prefix url =
    let rest = Text.slice url (Text.len prefix) (Text.len url) in
    Text.slice rest 0 (Text.find rest prefix)

-- `url.slice(prefix.length)`
unfoldable pub rest_of : String → String → String
rest_of prefix url = Text.slice url (Text.len prefix) (Text.len url)

abbrev pub ok_status : Value
ok_status = obj (field "status" (str "ok") end)

abbrev pub not_found : Response
not_found = reply 404 (error "Not found")

unfoldable pub strings : List String → Items
strings [] = nil
strings (s ∷ ss) = cons (str s) (strings ss)

unfoldable pub items : List Value → Items
items [] = nil
items (v ∷ vs) = cons v (items vs)

-- The tests `req.method === ... && req.url ...`.
unfoldable pub is_get : Request → String → Bool
is_get r url = elim r.method [ get ↦ str_eq r.url url | _ ↦ false ]

unfoldable pub is_get_below : Request → String → Bool
is_get_below r prefix = elim r.method [ get ↦ starts_with r.url prefix | _ ↦ false ]

unfoldable pub is_post : Request → String → Bool
is_post r url = elim r.method [ post ↦ str_eq r.url url | _ ↦ false ]

unfoldable pub is_delete_below : Request → String → Bool
is_delete_below r prefix = elim r.method [ delete ↦ starts_with r.url prefix | _ ↦ false ]
