-- ===== src/Services/Metadata.antt =====
-- services/metadata/index.js: proofs of metadata. The hash of a value, SHA-256 in hexadecimal of its
-- JSON text, is a parameter; of `undefined` there is no JSON text, and hashing throws.
pub mod Server
pub mod Requests
use new_zone_reference.Prelude.{
  ℕ, zero, suc, ◌+◌, ◌-◌, ◌*◌, ◌/◌, ◌%◌, ◌^◌, ◌≤◌, ◌<◌, String, ◌≡◌, refl, sym, ap, ◌∙◌, ◌≢◌, ◌↔◌,
  ◌⊎◌, inl, inr, Bool, true, false, not, ◌&&◌, ◌||◌, Option, none, some, List, [], ◌∷◌, ◌++◌, map,
  append_assoc, append-nil, arith, str_eq, eq_iff, eq_refl, ltb, leb, ◌==◌, if◌then◌else◌, ltb→lt,
  lt→ltb, leb→le, ==_iff, Bool-cases, Option-cases, List-cases, length, take, drop, replicate,
  filter, length-append, length-take, length-drop, length-replicate, length-filter, length-map,
  take-append-drop, take-append, drop-append, take_of_le, drop-append_of_le, drop-drop, drop-nil,
  last, length-last, last_of_le, last-last, push_bounded, length-push_bounded, push_bounded-last,
  push_all, push_all-last,
}
use new_zone_reference.Js.{Value, undefined, str}

-- The text that stands for a value that is there.
unfoldable pub hash_json : (Value → String) → Value → Option String
hash_json sha256_json undefined = none
hash_json sha256_json v = some (sha256_json v)

-- `generateMetadataProof`
unfoldable pub generate_metadata_proof : (Value → String) → Value → Option String
unfolding hash_json
generate_metadata_proof sha256_json metadata = hash_json sha256_json metadata

-- `a === b` for a text `a`.
unfoldable pub is_same_text : String → Value → Bool
is_same_text s (str t) = str_eq s t
is_same_text s v = false

-- `verifyMetadataProof`; `none` is the error of hashing `undefined`.
unfoldable pub verify_metadata_proof : (Value → String) → Value → Value → Option Bool
unfolding is_same_text generate_metadata_proof
verify_metadata_proof sha256_json metadata proof_id =
    elim (generate_metadata_proof sha256_json metadata) [
      | none ↦ none
      | some proof ↦ some (is_same_text proof proof_id)
    ]
