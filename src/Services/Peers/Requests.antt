-- ===== src/Services/Peers/Requests.antt =====
-- services/p2p_node/server.js: what the requests do to the peer registry.
use new_zone_reference.Prelude.{ℕ, String, List, [], ◌∷◌, arith}
use new_zone_reference.Js.{Value}
use new_zone_reference.Crypto.Routing.{Verified}
use new_zone_reference.Services.Http.{Request, Response, parse_request_body, is_get, is_post}
use new_zone_reference.Services.Http.Cases.{if_cases, with_payload_cases}
use new_zone_reference.Services.Peers.{Peers}
use new_zone_reference.Services.Peers.Bounds.{IsValid, add_peer-IsValid, merge_peers-IsValid}
use new_zone_reference.Services.Peers.Server.{handle, post_announce, post_heartbeat, post_merge}

-- A request, and the readings of the clock while it is handled.
abbrev pub Timed : Type 0
Timed = (ℕ → ℕ) × Request

module _ (property_key : Value → String) (verify : Value → Verified) (self_id : String) where
  -- The registry after a sequence of requests.
  unfoldable pub handle_all : List Timed → Peers → Peers
  handle_all [] peers = peers
  handle_all ((clock, r) ∷ requests) peers =
      handle_all requests (handle property_key verify self_id clock r peers).0

  handle-IsValid :
      (clock : ℕ → ℕ) (r : Request) (peers : Peers)
      → IsValid peers
      → IsValid (handle property_key verify self_id clock r peers).0
  unfolding handle post_announce post_heartbeat post_merge
  handle-IsValid clock r peers valid =
      let P : Peers × Response → Type 0 = λ o. IsValid o.0 in
      let parsed = parse_request_body verify r.body in
      if_cases P (is_get r "/health") valid (
        if_cases P (is_get r "/peers") valid (
          if_cases P (is_post r "/p2p/announce")
            (with_payload_cases P parsed peers _
              (λ v crypto e. add_peer-IsValid property_key (clock 0) _ _ peers valid)
              (λ answer. valid))
            (if_cases P (is_post r "/p2p/heartbeat")
              (with_payload_cases P parsed peers _
                (λ v crypto e. add_peer-IsValid property_key (clock 0) _ _ peers valid)
                (λ answer. valid))
              (if_cases P (is_post r "/p2p/merge")
                (with_payload_cases P parsed peers _
                  (λ v crypto e. merge_peers-IsValid property_key _ peers valid) (λ answer. valid))
                valid))))

  handle_from-IsValid :
      (requests : List Timed) (peers : Peers) → IsValid peers → IsValid (handle_all requests peers)
  unfolding handle_all
  handle_from-IsValid [] peers valid = valid
  handle_from-IsValid ((clock, r) ∷ requests) peers valid =
      handle_from-IsValid requests (handle property_key verify self_id clock r peers).0
        (handle-IsValid clock r peers valid)

  -- After any requests to a node that starts without peers, announcements, heartbeats and merges of
  -- any lists among them, the registry has at most 200 peers and no name twice.
  pub handle_all-IsValid : (requests : List Timed) → IsValid (handle_all requests [])
  handle_all-IsValid requests =
      handle_from-IsValid requests [] (record { distinct = tt; bounded = omega arith })
