-- ===== src/Services/Storage.antt =====
-- services/storage/index.js: the content-addressed object store. The hash of a payload, SHA-256 in
-- hexadecimal of its JSON text, is computed by the language and by node:crypto: it is a parameter.
pub mod Integrity
pub mod Server
pub mod Requests
use new_zone_reference.Prelude.{
  ℕ, zero, suc, ◌+◌, ◌-◌, ◌*◌, ◌/◌, ◌%◌, ◌^◌, ◌≤◌, ◌<◌, String, ◌≡◌, refl, sym, ap, ◌∙◌, ◌≢◌, ◌↔◌,
  ◌⊎◌, inl, inr, Bool, true, false, not, ◌&&◌, ◌||◌, Option, none, some, List, [], ◌∷◌, ◌++◌, map,
  append_assoc, append-nil, arith, str_eq, eq_iff, eq_refl, ltb, leb, ◌==◌, if◌then◌else◌, ltb→lt,
  lt→ltb, leb→le, ==_iff, Bool-cases, Option-cases, List-cases, length, take, drop, replicate,
  filter, length-append, length-take, length-drop, length-replicate, length-filter, length-map,
  take-append-drop, take-append, drop-append, take_of_le, drop-append_of_le, drop-drop, drop-nil,
  last, length-last, last_of_le, last-last, push_bounded, length-push_bounded, push_bounded-last,
  push_all, push_all-last,
}
use new_zone_reference.Prelude.Dict.{Dict, get, put}
use new_zone_reference.Js.{Value, truthy}
use new_zone_reference.Js.Object.{Slot, own, inherited, missing, read}

abbrev pub Store : Type 0
Store = Dict Value

-- What `getObject` returns: `null`, an object, or a function that the name inherits.
unfoldable pub or_null : Slot Value → Slot Value
or_null (own v) = if truthy v then own v else missing
or_null s = s

-- `getObject`
unfoldable pub get_object : String → Store → Slot Value
unfolding or_null
get_object hash_id store = or_null (read hash_id store)

module _ (sha256_json : Value → String) where
  -- `generateHash`
  unfoldable pub generate_hash : Value → String
  generate_hash payload = sha256_json payload

  -- `storeObject`
  unfoldable pub store_object : Value → Store → Store × String
  unfolding generate_hash
  store_object payload store =
      let hash_id = generate_hash payload in (put hash_id payload store, hash_id)

  -- `verifyObject`
  unfoldable pub verify_object : Value → String → Bool
  unfolding generate_hash
  verify_object payload hash_id = str_eq (generate_hash payload) hash_id

  -- A run of calls of `storeObject`.
  unfoldable pub store_all : List Value → Store → Store
  store_all [] store = store
  store_all (payload ∷ payloads) store = store_all payloads (store_object payload store).0
