-- ===== src/Services/Consensus/Proofs.antt =====
-- services/consensus: what the proofs of the proposals say.
use new_zone_reference.Prelude.{
  not, ◌&&◌, String, ◌≡◌, refl, ap, inl, inr, Bool, true, false, Option, none, some, str_eq,
  eq_refl, Bool-cases, Option-cases,
}
use new_zone_reference.Prelude.Dict.{get, put, get-put}
use new_zone_reference.Services.Http.{
  is_get, is_post, is_get_below, Request, Response, parse_request_body,
}
use new_zone_reference.Crypto.Routing.{Verified}
use new_zone_reference.Js.Object.{is_inherited, read, slot_of}
use new_zone_reference.Services.Http.Cases.{if_cases, with_payload_cases}
use new_zone_reference.Services.Metadata.{hash_json, is_same_text}
use new_zone_reference.Services.Consensus.{generate_consensus_proof, verify_consensus_proof}
use new_zone_reference.Services.Consensus.Server.{
  is_object, log, accepted, Proposal, add_proposal, post_propose, post_generate, show_proof,
  set_status, is_there, decide, post_verify, handle, Server, Status,
}
use new_zone_reference.Js.{str, obj, field, end, prop, find_field, or_empty, or_else, truthy, Value}

module _ (property_key : Value → String) (verify : Value → Verified)
    (sha256_json : Value → String) where
  -- The proof of each proposal is the hash of its own payload.
  unfoldable pub IsProven : Server → Type 0
  IsProven s =
      (key : String) (p : Proposal)
      → get key s.proposals ≡ some p
      → generate_consensus_proof sha256_json p.payload ≡ some p.proof

  some_inj : (p : Proposal) {q : Proposal} → some p ≡ some q → p ≡ q
  some_inj p h = ap (λ o. elim o [ none ↦ p | some r ↦ r ]) h

  put-IsProven :
      (key : String) (p : Proposal) (s : Server)
      → IsProven s
      → generate_consensus_proof sha256_json p.payload ≡ some p.proof
      → IsProven (record s { proposals = put key p s.proposals })
  unfolding IsProven
  put-IsProven key p s proven hashed name q =
      rw (get-put key name p s.proposals) (elim (Bool-cases (str_eq key name)) [
        | inl same ↦ rw same (λ h. rw (← some_inj p h) hashed)
        | inr other ↦ rw other (proven name q)
      ])

  log-IsProven :
      (name : String) (content : Value) (s : Server) → IsProven s → IsProven (log name content s)
  unfolding IsProven
  log-IsProven name content s proven = proven

  add_proposal-IsProven :
      (proof : Option String) (id topic inner : Value) (s : Server)
      → IsProven s
      → generate_consensus_proof sha256_json inner ≡ proof
      → IsProven (add_proposal property_key verify sha256_json proof id topic inner s).0
  unfolding add_proposal
  add_proposal-IsProven none id topic inner s proven h = proven
  add_proposal-IsProven (some proof) id topic inner s proven h =
      log-IsProven _ _ _ (put-IsProven (property_key id) _ s proven h)

  set_absent-IsProven :
      (b : Bool) (key : String) (status : Status) (s : Server)
      → IsProven s
      → IsProven (set_status property_key verify sha256_json (slot_of b none) key status s)
  unfolding IsProven set_status slot_of
  set_absent-IsProven true key status s proven = proven
  set_absent-IsProven false key status s proven = proven

  set_status-IsProven :
      (key : String) (status : Status) (s : Server)
      → IsProven s
      → IsProven (set_status property_key verify sha256_json (read key s.proposals) key status s)
  unfolding IsProven set_status read slot_of
  set_status-IsProven key status s proven = elim (Option-cases (get key s.proposals)) [
    | inl absent ↦ rw absent (set_absent-IsProven (is_inherited key) key status s proven)
    | inr (p, there) ↦ rw there (put-IsProven key _ s proven (proven key p there))
  ]

  decide-IsProven :
      (valid : Option Bool) (id proof_id : Value) (s : Server)
      → IsProven s
      → IsProven (decide property_key verify sha256_json valid id proof_id s).0
  unfolding decide
  decide-IsProven none id proof_id s proven = proven
  decide-IsProven (some valid) id proof_id s proven =
      if_cases IsProven _ (log-IsProven _ _ _ (set_status-IsProven (property_key id) _ s proven))
        (log-IsProven _ _ s proven)

  show_proof-IsProven :
      (proof : Option String) (s : Server)
      → IsProven s
      → IsProven (show_proof property_key verify sha256_json proof s).0
  unfolding show_proof
  show_proof-IsProven none s proven = proven
  show_proof-IsProven (some proof) s proven = log-IsProven _ _ s proven

  post_propose-IsProven :
      (v : Value) (s : Server)
      → IsProven s
      → IsProven (post_propose property_key verify sha256_json v s).0
  unfolding post_propose
  post_propose-IsProven v s proven =
      let P : Server × Response → Type 0 = λ o. IsProven o.0 in
      if_cases P (not (is_object v)) proven (
        if_cases P (not (truthy (prop "id" v) && truthy (prop "topic" v))) proven
          (add_proposal-IsProven _ (prop "id" v) (prop "topic" v) (prop "payload" v) s proven refl))

  -- Every request keeps this of the proposals of the server: that the proof of a proposal is the hash
  -- of its own payload.
  pub handle-IsProven :
      (r : Request) (s : Server)
      → IsProven s
      → IsProven (handle property_key verify sha256_json r s).0
  unfolding handle post_generate post_verify
  handle-IsProven r s proven =
      let P : Server × Response → Type 0 = λ o. IsProven o.0 in
      let parsed = parse_request_body verify r.body in
      if_cases P (is_get r "/health") proven (
        if_cases P (is_post r "/propose")
          (with_payload_cases P parsed s _ (λ v crypto e. post_propose-IsProven v s proven)
            (λ answer. proven))
          (if_cases P (is_get_below r "/status/") proven (
            if_cases P (is_post r "/generate")
              (with_payload_cases P parsed s _ (λ v crypto e. show_proof-IsProven _ s proven)
                (λ answer. proven))
              (if_cases P (is_post r "/verify")
                (with_payload_cases P parsed s _ (λ v crypto e. decide-IsProven _ _ _ s proven)
                  (λ answer. proven))
                proven))))

  -- For a proposal under an identifier that is not empty and converts to itself, POST /verify
  -- marks it as accepted for any payload that comes with its own hash, whatever the payload of
  -- the proposal: the payload and the proof of the proposal stay, and its status becomes
  -- `accepted`.
  pub post_verify-any_payload :
      (key proof : String) (other : Value) (p : Proposal) (s : Server)
      → property_key (str key) ≡ key
      → str_eq key "" ≡ false
      → get key s.proposals ≡ some p
      → hash_json sha256_json other ≡ some proof
      → let v =
          obj (field "id" (str key) (field "payload" other (field "proof_id" (str proof) end))) in
        get key (post_verify property_key verify sha256_json v s).0.proposals
        ≡ some (record p { status = accepted })
  unfolding post_verify decide set_status is_there read slot_of prop find_field or_empty or_else
      truthy verify_consensus_proof generate_consensus_proof is_same_text
  post_verify-any_payload key proof other p s text_key present there hashed =
      rw (hashed, text_key, there, present, eq_refl proof)
        (rw (get-put key key _ s.proposals, eq_refl key) refl)
