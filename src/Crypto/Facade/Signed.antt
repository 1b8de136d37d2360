-- ===== src/Crypto/Facade/Signed.antt =====
-- lib/nz-crypto.js: packets that carry a signature over a hash of their body.
pub mod Acceptance
use new_zone_reference.Prelude.{
  ℕ, zero, suc, ◌+◌, ◌-◌, ◌*◌, ◌/◌, ◌%◌, ◌^◌, ◌≤◌, ◌<◌, String, ◌≡◌, refl, sym, ap, ◌∙◌, ◌≢◌, ◌↔◌,
  ◌⊎◌, inl, inr, Bool, true, false, not, ◌&&◌, ◌||◌, Option, none, some, List, [], ◌∷◌, ◌++◌, map,
  append_assoc, append-nil, arith, str_eq, eq_iff, eq_refl, ltb, leb, ◌==◌, if◌then◌else◌, ltb→lt,
  lt→ltb, leb→le, ==_iff, Bool-cases, Option-cases, List-cases, length, take, drop, replicate,
  filter, length-append, length-take, length-drop, length-replicate, length-filter, length-map,
  take-append-drop, take-append, drop-append, take_of_le, drop-append_of_le, drop-drop, drop-nil,
  last, length-last, last_of_le, last-last, push_bounded, length-push_bounded, push_bounded-last,
  push_all, push_all-last,
}
use new_zone_reference.Prelude.Int.{ℤ, pos, negsuc}
use new_zone_reference.Js.{
  Value, Fields, undefined, null, bool, num, str, arr, obj, end, field, truthy, prop,
}
use new_zone_reference.Crypto.Bytes.{Bytes}
use new_zone_reference.Crypto.Result.{Result, ok, err, ◌>>=◌}
use new_zone_reference.Crypto.Ed25519.{Signer, ed25519_sign, ed25519_verify}
use new_zone_reference.Crypto.Facade.{Tools, sha256_hex_of, canonicalize, without}

-- The fields of `auth` before it is signed.
abbrev pub auth_fields : Value → ℕ → String → String → Fields → Fields
auth_fields node_id timestamp nonce body_hash rest = field "node_id" node_id (
    field "timestamp" (num (pos timestamp))
      (field "nonce" (str nonce) (field "body_hash" (str body_hash) rest)))

-- The packet, with the signature as the last field of `auth`.
abbrev pub signed_packet : Value → ℕ → String → String → String → Value → Value
signed_packet node_id timestamp nonce body_hash signature body = obj (
    field "auth"
      (obj (auth_fields node_id timestamp nonce body_hash (field "signature" (str signature) end)))
      (field "body" body end))

-- The bytes that are signed: the hash of the canonical `auth`, in hexadecimal.
unfoldable pub signed_bytes : Tools → Fields → Bytes
unfolding sha256_hex_of
signed_bytes tools auth = tools.encode (sha256_hex_of tools (obj (canonicalize auth)))

-- `buildSignedPacket`, at a time in seconds and with a random nonce.
unfoldable pub build_signed_packet :
    Tools → Signer → Value → Bytes → Value → ℕ → String → Result Value
unfolding signed_bytes
build_signed_packet tools signer node_id private_key body now nonce = do
  let body_hash = sha256_hex_of tools body
  sig ←
      ed25519_sign signer (signed_bytes tools (auth_fields node_id now nonce body_hash end))
        private_key
  ok (signed_packet node_id now nonce body_hash (tools.u8_to_b64 sig) body)

pub data Reason : Type 0 where
  missing_auth_or_body : Reason
  missing_auth_fields : Reason
  timestamp_out_of_range : Reason
  replay_nonce : Reason
  body_hash_mismatch : Reason
  unknown_node : Reason
  invalid_signature : Reason

pub data Checked : Type 0 where
  accepted : Value → Checked
  refused : Reason → Checked
  thrown : Checked

-- `Math.abs(now - timestamp)`; `none` is NaN.
unfoldable pub skew_sec : Tools → ℕ → Value → Option ℕ
skew_sec tools now v = elim (tools.to_number v) [
  | none ↦ none
  | some (pos t) ↦ some (now - t + (t - now))
  | some (negsuc t) ↦ some (now + suc t)
]

-- `... > maxSkewSec`, which NaN is not.
unfoldable pub exceeds : Option ℕ → ℕ → Bool
exceeds none max_skew_sec = false
exceeds (some skew) max_skew_sec = ltb max_skew_sec skew

-- `isNonceSeen && isNonceSeen(node_id, nonce)`
unfoldable pub is_replay : Option (Value → Value → Bool) → Value → Value → Bool
is_replay none node_id nonce = false
is_replay (some is_nonce_seen) node_id nonce = is_nonce_seen node_id nonce

-- `a === b` for a text `a`.
unfoldable pub is_same_text : String → Value → Bool
is_same_text s (str t) = str_eq s t
is_same_text s v = false

abbrev pub fields_of : Value → Fields
fields_of (obj fs) = fs
fields_of v = end

-- The check of the signature by the node's public key.
unfoldable pub check_signature : Tools → Signer → Option Bytes → Option Bytes → Value → Checked
unfolding signed_bytes
check_signature tools signer none sig auth = refused unknown_node
check_signature tools signer (some pub_key) none auth = thrown
check_signature tools signer (some pub_key) (some sig) auth =
    if ed25519_verify signer (signed_bytes tools (without "signature" (fields_of auth))) sig pub_key
    then accepted (prop "node_id" auth)
    else refused invalid_signature

-- `!node_id || !timestamp || !nonce || !body_hash || !signature` is the negation.
unfoldable pub has_auth_fields : Value → Bool
has_auth_fields auth =
    truthy (prop "node_id" auth)
    && truthy (prop "timestamp" auth)
    && truthy (prop "nonce" auth)
    && truthy (prop "body_hash" auth)
    && truthy (prop "signature" auth)

-- `verifySignedPacket`; the keys are those of the caller's `getPublicKeyByNodeId`.
unfoldable pub verify_signed_packet :
    Tools
    → Signer
    → ℕ
    → (Value → Option Bytes)
    → ℕ
    → Option (Value → Value → Bool)
    → Value
    → Checked
unfolding has_auth_fields exceeds is_replay is_same_text check_signature
verify_signed_packet tools signer now get_public_key_by_node_id max_skew_sec is_nonce_seen packet =
    let auth = prop "auth" packet in
    let body = prop "body" packet in
    if not (truthy auth && truthy body)
    then refused missing_auth_or_body
    else if not (has_auth_fields auth)
    then refused missing_auth_fields
    else if exceeds (skew_sec tools now (prop "timestamp" auth)) max_skew_sec
    then refused timestamp_out_of_range
    else if is_replay is_nonce_seen (prop "node_id" auth) (prop "nonce" auth)
    then refused replay_nonce
    else if not (is_same_text (sha256_hex_of tools body) (prop "body_hash" auth))
    then refused body_hash_mismatch
    else check_signature tools signer (get_public_key_by_node_id (prop "node_id" auth))
        (tools.b64_to_u8 (prop "signature" auth)) auth
