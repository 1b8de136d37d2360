-- ===== src/Crypto/Facade.antt =====
-- lib/nz-crypto.js: key import, signed packets, session keys and encrypted packets.
pub mod Keys
pub mod Signed
pub mod Encrypted
use Prim.Native.String as Text
use text.Mathlib.Text.{is_le}
use new_zone_reference.Prelude.{
  ℕ, zero, suc, ◌+◌, ◌-◌, ◌*◌, ◌/◌, ◌%◌, ◌^◌, ◌≤◌, ◌<◌, String, ◌≡◌, refl, sym, ap, ◌∙◌, ◌≢◌, ◌↔◌,
  ◌⊎◌, inl, inr, Bool, true, false, not, ◌&&◌, ◌||◌, Option, none, some, List, [], ◌∷◌, ◌++◌, map,
  append_assoc, append-nil, arith, str_eq, eq_iff, eq_refl, ltb, leb, ◌==◌, if◌then◌else◌, ltb→lt,
  lt→ltb, leb→le, ==_iff, Bool-cases, Option-cases, List-cases, length, take, drop, replicate,
  filter, length-append, length-take, length-drop, length-replicate, length-filter, length-map,
  take-append-drop, take-append, drop-append, take_of_le, drop-append_of_le, drop-drop, drop-nil,
  last, length-last, last_of_le, last-last, push_bounded, length-push_bounded, push_bounded-last,
  push_all, push_all-last,
}
use new_zone_reference.Prelude.Int.{ℤ, pos, negsuc}
use new_zone_reference.Js.{
  Value, Fields, undefined, null, bool, num, str, arr, obj, end, field, truthy, prop,
}
use new_zone_reference.Crypto.Bytes.{Bytes}
use new_zone_reference.Crypto.Result.{
  Result, ok, err, ◌>>=◌, ◌>>◌, throw_if, unsupported_version, unsupported_cipher,
  authentication_failed, invalid_json,
}

-- What the language and node:crypto compute: `JSON.stringify` (the empty text for `undefined`, as
-- `TextEncoder` reads it) and `JSON.parse`, SHA-256 of a text in hexadecimal, `TextEncoder` and
-- `TextDecoder`, base64 in both directions (`none` is the error for a value that is no text), and
-- the conversions of a value to a number, where `none` is NaN, and to a text.
pub record Tools : Type 0 where
  pub json : Value → String
  pub parse : String → Option Value
  pub sha256_hex : String → String
  pub encode : String → Bytes
  pub decode : Bytes → String
  pub u8_to_b64 : Bytes → String
  pub b64_to_u8 : Value → Option Bytes
  pub to_number : Value → Option ℤ
  pub to_text : Value → String

-- `sha256Hex`: a text is hashed as it is, all else as JSON.
unfoldable pub sha256_hex_of : Tools → Value → String
sha256_hex_of tools (str s) = tools.sha256_hex s
sha256_hex_of tools v = tools.sha256_hex (tools.json v)

unfoldable pub is_undefined : Value → Bool
is_undefined undefined = true
is_undefined v = false

-- A place in the order of the names.
unfoldable pub insert_field : String → Value → Fields → Fields
insert_field k v end = field k v end
insert_field k v (field j w fs) =
    let rest = insert_field k v fs in
    if is_le (Text.compare k j) then field k v (field j w fs) else field j w rest

-- `canonicalize`: the fields in the order of their names, those that are undefined left out.
unfoldable pub canonicalize : Fields → Fields
unfolding insert_field is_undefined
canonicalize end = end
canonicalize (field k v fs) =
    let rest = canonicalize fs in if is_undefined v then rest else insert_field k v rest

-- `const { name: _, ...rest } = fields`
unfoldable pub without : String → Fields → Fields
without k end = end
without k (field j v fs) = let rest = without k fs in if str_eq j k then rest else field j v rest
