-- ===== src/Services/Consensus.antt =====
-- services/consensus/index.js: proofs of the input of a consensus.
pub mod Server
pub mod Proofs
use new_zone_reference.Prelude.{
  ℕ, zero, suc, ◌+◌, ◌-◌, ◌*◌, ◌/◌, ◌%◌, ◌^◌, ◌≤◌, ◌<◌, String, ◌≡◌, refl, sym, ap, ◌∙◌, ◌≢◌, ◌↔◌,
  ◌⊎◌, inl, inr, Bool, true, false, not, ◌&&◌, ◌||◌, Option, none, some, List, [], ◌∷◌, ◌++◌, map,
  append_assoc, append-nil, arith, str_eq, eq_iff, eq_refl, ltb, leb, ◌==◌, if◌then◌else◌, ltb→lt,
  lt→ltb, leb→le, ==_iff, Bool-cases, Option-cases, List-cases, length, take, drop, replicate,
  filter, length-append, length-take, length-drop, length-replicate, length-filter, length-map,
  take-append-drop, take-append, drop-append, take_of_le, drop-append_of_le, drop-drop, drop-nil,
  last, length-last, last_of_le, last-last, push_bounded, length-push_bounded, push_bounded-last,
  push_all, push_all-last,
}
use new_zone_reference.Js.{Value, str}
use new_zone_reference.Services.Metadata.{is_same_text, hash_json}

-- `generateConsensusProof`; hashing `undefined` throws.
unfoldable pub generate_consensus_proof : (Value → String) → Value → Option String
unfolding hash_json
generate_consensus_proof sha256_json payload = hash_json sha256_json payload

-- `verifyConsensusProof`
unfoldable pub verify_consensus_proof : (Value → String) → Value → Value → Option Bool
unfolding is_same_text generate_consensus_proof
verify_consensus_proof sha256_json payload proof_id =
    elim (generate_consensus_proof sha256_json payload) [
      | none ↦ none
      | some proof ↦ some (is_same_text proof proof_id)
    ]
