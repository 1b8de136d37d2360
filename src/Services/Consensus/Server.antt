-- ===== src/Services/Consensus/Server.antt =====
-- services/consensus/server.js: the proposals and their proofs.
use new_zone_reference.Prelude.{
  String, Bool, true, false, not, ◌&&◌, Option, none, some, List, [], ◌∷◌, ◌++◌, if◌then◌else◌,
}
use new_zone_reference.Prelude.Dict.{Dict, get, put}
use new_zone_reference.Js.{
  Value, undefined, bool, str, arr, obj, end, field, truthy, prop, or_empty,
}
use new_zone_reference.Js.Object.{Slot, own, inherited, missing, read}
use new_zone_reference.Crypto.Routing.{Verified}
use new_zone_reference.Services.Http.{
  Request, Response, reply, parse_request_body, with_payload, error, ok_status, not_found, is_get,
  is_get_below, is_post,
}
use new_zone_reference.Services.Ports.{Outgoing, log_event}
use Prim.Native.String as Text
use new_zone_reference.Services.Consensus.{generate_consensus_proof, verify_consensus_proof}

pub data Status : Type 0 where
  pending accepted rejected : Status

abbrev pub status_text : Status → String
status_text pending = "pending"
status_text accepted = "accepted"
status_text rejected = "rejected"

pub record Proposal : Type 0 where
  pub id : Value
  pub topic : Value
  pub payload : Value
  pub proof : String
  pub status : Status

-- The proposals, the status that was set on what `Object.prototype` has under a name, and the log
-- requests that were started.
pub record Server : Type 0 where
  pub proposals : Dict Proposal
  pub foreign : Dict Status
  pub sent : List Outgoing

abbrev pub log : String → Value → Server → Server
log name content s = record s { sent = s.sent ++ log_event "consensus" name content ∷ [] }

-- `payload && typeof payload === "object"`
unfoldable pub is_object : Value → Bool
is_object (arr xs) = true
is_object (obj fs) = true
is_object v = false

unfoldable pub show_proposal : Proposal → Value
show_proposal p = obj (
    field "id" p.id (
      field "topic" p.topic (
        field "payload" p.payload
          (field "proof" (str p.proof) (field "status" (str (status_text p.status)) end)))))

abbrev pub status_value : Option Status → Value
status_value none = undefined
status_value (some status) = str (status_text status)

-- The reply to GET /status/<id>.
unfoldable pub show_status : String → Slot Proposal → Option Status → Response
show_status id missing foreign =
    reply 200 (obj (field "id" (str id) (field "status" (str "pending") end)))
show_status id (own p) foreign = reply 200 (
    obj (
      field "id" p.id (
        field "topic" p.topic
          (field "proof" (str p.proof) (field "status" (str (status_text p.status)) end)))))
show_status id inherited foreign = reply 200 (obj (field "status" (status_value foreign) end))

-- `req.url.split("/")[2]`, of a URL below /status/.
unfoldable pub status_id : String → String
status_id url =
    let rest = Text.slice url (Text.len "/status/") (Text.len url) in
    Text.slice rest 0 (Text.find rest "/")

-- `property_key` converts a value to the name of a property, `verify` checks routing packets, and
-- `sha256_json` hashes the JSON text of a value.
module _ (property_key : Value → String) (verify : Value → Verified)
    (sha256_json : Value → String) where
  unfoldable pub add_proposal : Option String → Value → Value → Value → Server → Server × Response
  unfolding show_proposal
  add_proposal none id topic inner s = (s, reply 400 (error "Invalid request"))
  add_proposal (some proof) id topic inner s =
      let p : Proposal = record {
        id = id;
        topic = topic;
        payload = inner;
        proof = proof;
        status = pending;
      } in
      (
        log "proposal_created" (obj (field "id" id (field "topic" topic end)))
            (record s { proposals = put (property_key id) p s.proposals }),
        reply 200 (show_proposal p),
      )

  -- POST /propose, with the payload; for an identifier other than `__proto__`.
  unfoldable pub post_propose : Value → Server → Server × Response
  unfolding is_object add_proposal
  post_propose v s =
      let id = prop "id" v in
      let topic = prop "topic" v in
      let inner = prop "payload" v in
      if not (is_object v)
      then (s, reply 400 (error "Invalid request"))
      else if not (truthy id && truthy topic)
      then (s, reply 400 (error "Missing id or topic"))
      else add_proposal (generate_consensus_proof sha256_json inner) id topic inner s

  unfoldable pub show_proof : Option String → Server → Server × Response
  show_proof none s = (s, reply 400 (error "Invalid request"))
  show_proof (some proof) s =
      let shown = obj (field "proof_id" (str proof) end) in
      (log "consensus_generated" shown s, reply 200 shown)

  -- POST /generate, with the payload.
  unfoldable pub post_generate : Value → Server → Server × Response
  unfolding show_proof
  post_generate v s =
      show_proof (generate_consensus_proof sha256_json (prop "payload" (or_empty v))) s

  -- `proposals[id].status = valid ? "accepted" : "rejected"` where there is something.
  unfoldable pub set_status : Slot Proposal → String → Status → Server → Server
  set_status (own p) key status s = record s {
    proposals = put key (record p { status = status }) s.proposals;
  }
  set_status inherited key status s = record s { foreign = put key status s.foreign }
  set_status missing key status s = s

  unfoldable pub is_there : Slot Proposal → Bool
  is_there missing = false
  is_there slot = true

  unfoldable pub decide : Option Bool → Value → Value → Server → Server × Response
  unfolding set_status is_there
  decide none id proof_id s = (s, reply 400 (error "Invalid request"))
  decide (some valid) id proof_id s =
      let key = property_key id in
      let slot = read key s.proposals in
      (
        if truthy id && is_there slot
            then log "proposal_verified" (obj (field "id" id (field "valid" (bool valid) end)))
                (set_status slot key (if valid then accepted else rejected) s)
            else log "consensus_verified"
                (obj (field "proof_id" proof_id (field "valid" (bool valid) end))) s,
        reply 200 (obj (field "valid" (bool valid) end)),
      )

  -- POST /verify, with the payload.
  unfoldable pub post_verify : Value → Server → Server × Response
  unfolding decide
  post_verify v s =
      let proof_id = prop "proof_id" (or_empty v) in
      decide (verify_consensus_proof sha256_json (prop "payload" (or_empty v)) proof_id)
        (prop "id" (or_empty v)) proof_id s

  -- The handler of the server.
  unfoldable pub handle : Request → Server → Server × Response
  unfolding post_propose post_generate post_verify show_status status_id
  handle r s =
      if is_get r "/health"
      then (s, reply 200 ok_status)
      else if is_post r "/propose"
      then with_payload (parse_request_body verify r.body) s (λ v crypto. post_propose v s)
      else if is_get_below r "/status/"
      then (
        s,
        show_status (status_id r.url) (read (status_id r.url) s.proposals)
            (get (status_id r.url) s.foreign),
      )
      else if is_post r "/generate"
      then with_payload (parse_request_body verify r.body) s (λ v crypto. post_generate v s)
      else if is_post r "/verify"
      then with_payload (parse_request_body verify r.body) s (λ v crypto. post_verify v s)
      else (s, not_found)
