-- ===== src/Services/Identity.antt =====
-- services/identity/index.js: identifiers that are hashes. The hash of a text, SHA-256 in
-- hexadecimal, is a parameter; hashing what is no text throws.
pub mod Server
use Prim.Native.String as Text
use new_zone_reference.Prelude.{
  ℕ, zero, suc, ◌+◌, ◌-◌, ◌*◌, ◌/◌, ◌%◌, ◌^◌, ◌≤◌, ◌<◌, String, ◌≡◌, refl, sym, ap, ◌∙◌, ◌≢◌, ◌↔◌,
  ◌⊎◌, inl, inr, Bool, true, false, not, ◌&&◌, ◌||◌, Option, none, some, List, [], ◌∷◌, ◌++◌, map,
  append_assoc, append-nil, arith, str_eq, eq_iff, eq_refl, ltb, leb, ◌==◌, if◌then◌else◌, ltb→lt,
  lt→ltb, leb→le, ==_iff, Bool-cases, Option-cases, List-cases, length, take, drop, replicate,
  filter, length-append, length-take, length-drop, length-replicate, length-filter, length-map,
  take-append-drop, take-append, drop-append, take_of_le, drop-append_of_le, drop-drop, drop-nil,
  last, length-last, last_of_le, last-last, push_bounded, length-push_bounded, push_bounded-last,
  push_all, push_all-last,
}
use new_zone_reference.Js.{Value, str}
use new_zone_reference.Services.Metadata.{is_same_text}

-- `generateIdentity`
unfoldable pub generate_identity : (String → String) → Value → Option String
generate_identity sha256_hex (str input) = some (Text.slice (sha256_hex input) 0 32)
generate_identity sha256_hex v = none

-- `verifyIdentity`
unfoldable pub verify_identity : (String → String) → Value → Value → Option Bool
unfolding generate_identity is_same_text
verify_identity sha256_hex input identity_id = elim (generate_identity sha256_hex input) [
  | none ↦ none
  | some id ↦ some (is_same_text id identity_id)
]
