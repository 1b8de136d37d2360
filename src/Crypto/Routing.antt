-- ===== src/Crypto/Routing.antt =====
-- lib/nz-crypto-routing.js: signed routing packets between the services.
pub mod Packets
pub mod Canonical
use new_zone_reference.Prelude.{
  ℕ, zero, suc, ◌+◌, ◌-◌, ◌*◌, ◌/◌, ◌%◌, ◌^◌, ◌≤◌, ◌<◌, String, ◌≡◌, refl, sym, ap, ◌∙◌, ◌≢◌, ◌↔◌,
  ◌⊎◌, inl, inr, Bool, true, false, not, ◌&&◌, ◌||◌, Option, none, some, List, [], ◌∷◌, ◌++◌, map,
  append_assoc, append-nil, arith, str_eq, eq_iff, eq_refl, ltb, leb, ◌==◌, if◌then◌else◌, ltb→lt,
  lt→ltb, leb→le, ==_iff, Bool-cases, Option-cases, List-cases, length, take, drop, replicate,
  filter, length-append, length-take, length-drop, length-replicate, length-filter, length-map,
  take-append-drop, take-append, drop-append, take_of_le, drop-append_of_le, drop-drop, drop-nil,
  last, length-last, last_of_le, last-last, push_bounded, length-push_bounded, push_bounded-last,
  push_all, push_all-last,
}
use Prim.Native.String as Text
use text.Mathlib.Text.{is_le}
use new_zone_reference.Prelude.Int.{ℤ, pos, negsuc}
use new_zone_reference.Js.{
  Value, Items, Fields, undefined, null, bool, num, str, arr, obj, nil, cons, end, field, truthy,
  prop,
}

-- What node:crypto computes on texts in base64: the signature of a text with a private key, and
-- whether a signature of a text verifies with a public key. `none` is the error of a malformed key.
-- `json` is `JSON.stringify` of a value that is no object, and of a name.
pub record Platform : Type 0 where
  pub sign : String → String → String
  pub verify : String → String → String → Option Bool
  pub json : Value → String

-- `Array.prototype.join(",")`
unfoldable pub join : List String → String
join [] = ""
join (s ∷ []) = s
join (s ∷ t ∷ ss) = Text.◌++◌ s (Text.◌++◌ "," (join (t ∷ ss)))

-- A place in the order of the names.
unfoldable pub insert_entry : String → String → List (String × String) → List (String × String)
insert_entry k text [] = (k, text) ∷ []
insert_entry k text ((j, other) ∷ entries) =
    let rest = insert_entry k text entries in
    if is_le (Text.compare k j) then (k, text) ∷ (j, other) ∷ entries else (j, other) ∷ rest

-- `stableStringify`, with the parts of an array and the entries of an object in the order of their
-- names.
unfoldable mutual
  pub stable_stringify : (Value → String) → Value → String
  stable_stringify json (arr xs) = Text.◌++◌ "[" (Text.◌++◌ (join (stable_items json xs)) "]")
  stable_stringify json (obj fs) =
      Text.◌++◌ "{" (Text.◌++◌ (join (map (λ e. e.1) (stable_fields json fs))) "}")
  stable_stringify json undefined = json undefined
  stable_stringify json null = json null
  stable_stringify json (bool b) = json (bool b)
  stable_stringify json (num n) = json (num n)
  stable_stringify json (str s) = json (str s)

  pub stable_items : (Value → String) → Items → List String
  stable_items json nil = []
  stable_items json (cons v xs) = stable_stringify json v ∷ stable_items json xs

  pub stable_fields : (Value → String) → Fields → List (String × String)
  stable_fields json end = []
  stable_fields json (field k v fs) =
      insert_entry k (Text.◌++◌ (json (str k)) (Text.◌++◌ ":" (stable_stringify json v)))
        (stable_fields json fs)

-- `buildSigningPayload`
unfoldable pub build_signing_payload : (Value → String) → Value → String
build_signing_payload json packet = stable_stringify json (
    obj (
      field "version" (prop "version" packet) (
        field "node_id" (prop "node_id" packet) (
          field "ts" (prop "ts" packet)
            (field "nonce" (prop "nonce" packet) (field "payload" (prop "payload" packet) end))))))

pub record NodeKeys : Type 0 where
  pub ed25519_private : String
  pub ed25519_public : String

-- The packet before it is signed.
unfoldable pub unsigned : Value → ℕ → String → Value → Fields → Value
unsigned node_id now nonce payload rest = obj (
    field "version" (str "nz-routing-crypto-01") (
      field "node_id" node_id
        (field "ts" (num (pos now)) (field "nonce" (str nonce) (field "payload" payload rest)))))

pub data Reason : Type 0 where
  unsupported_version missing_node_id invalid_ts invalid_nonce missing_signature ts_skew
        unknown_node invalid_signature :
      Reason

pub data Verified : Type 0 where
  accepted : String → Value → Verified
  refused : Reason → Verified
  thrown : Verified

-- `!v || typeof v !== "string"` is the negation.
unfoldable pub is_text : Value → Bool
is_text (str s) = not (str_eq s "")
is_text v = false

abbrev pub text_of : Value → String
text_of (str s) = s
text_of v = ""

unfoldable pub is_version : Value → Bool
is_version (str s) = str_eq s "nz-routing-crypto-01"
is_version v = false

-- `Math.abs(now - ts)`, of a time stamp that is a number.
unfoldable pub skew_ms : ℕ → Value → Option ℕ
skew_ms now (num (pos t)) = some (now - t + (t - now))
skew_ms now (num (negsuc t)) = some (now + suc t)
skew_ms now v = none

-- The answer of `crypto.verify`.
unfoldable pub judge : Option Bool → String → Value → Verified
judge none node_id payload = thrown
judge (some b) node_id payload = if b then accepted node_id payload else refused invalid_signature

module _ (platform : Platform) where
  -- `signRoutingPacket`; `none` is the error of missing keys. `now` and `nonce` are the time and the
  -- random text.
  unfoldable pub sign_routing_packet : NodeKeys → Value → Value → ℕ → String → Option Value
  unfolding unsigned build_signing_payload
  sign_routing_packet keys node_id payload now nonce =
      let signature =
        platform.sign keys.ed25519_private
          (build_signing_payload platform.json (unsigned node_id now nonce payload end)) in
      if str_eq keys.ed25519_private "" || str_eq keys.ed25519_public ""
      then none
      else some (unsigned node_id now nonce payload (field "signature" (str signature) end))

  -- The lookup of the public key and the check of the signature.
  unfoldable pub check_signature : Option String → Value → Verified
  unfolding judge build_signing_payload
  check_signature none packet = refused unknown_node
  check_signature (some public_key) packet =
      judge
        (platform.verify public_key (build_signing_payload platform.json packet)
          (text_of (prop "signature" packet)))
        (text_of (prop "node_id" packet)) (prop "payload" packet)

  unfoldable pub check_skew : Option ℕ → ℕ → Option String → Value → Verified
  unfolding check_signature is_text
  check_skew none max_skew_sec key packet = refused invalid_ts
  check_skew (some skew) max_skew_sec key packet =
      if not (is_text (prop "nonce" packet))
      then refused invalid_nonce
      else if not (is_text (prop "signature" packet))
      then refused missing_signature
      else if ltb (max_skew_sec * 1000) skew
      then refused ts_skew
      else check_signature key packet

  -- `verifyRoutingPacket`; the keys are those of the caller's `getPublicKeyByNodeId`.
  unfoldable pub verify_routing_packet : ℕ → (String → Option String) → ℕ → Value → Verified
  unfolding check_skew skew_ms is_version is_text
  verify_routing_packet now get_public_key_by_node_id max_skew_sec packet =
      if not (truthy packet && is_version (prop "version" packet))
      then refused unsupported_version
      else if not (is_text (prop "node_id" packet))
      then refused missing_node_id
      else check_skew (skew_ms now (prop "ts" packet)) max_skew_sec
          (get_public_key_by_node_id (text_of (prop "node_id" packet))) packet
