-- ===== src/Services/Peers/Server.antt =====
-- services/p2p_node/server.js: the HTTP interface of the peer registry.
use new_zone_reference.Prelude.{
  ℕ, zero, suc, ◌+◌, String, Bool, true, false, List, [], ◌∷◌, if◌then◌else◌,
}
use Prim.Native.String as Text
use new_zone_reference.Prelude.Int.{pos}
use new_zone_reference.Js.{
  Value, Items, undefined, null, bool, num, str, arr, obj, nil, cons, end, field, prop, or_empty,
}
use new_zone_reference.Js.Object.{Slot, own, inherited, missing}
use new_zone_reference.Crypto.Routing.{Verified}
use new_zone_reference.Services.Http.{
  Request, Response, reply, parse_request_body, with_payload, not_found, error, is_get, is_post,
}
use new_zone_reference.Services.Peers.{Peer, Peers, Announced, add_peer, list_peers, merge_peers}

unfoldable pub peer_value : Peer → Value
peer_value p = obj (field "id" p.id (field "url" p.url (field "ts" (num (pos p.ts)) end)))

unfoldable pub peer_values : List Peer → Items
unfolding peer_value
peer_values [] = nil
peer_values (p ∷ peers) = cons (peer_value p) (peer_values peers)

-- The JSON of `PEERS[id]`: a function gives no text, and so does a peer that was evicted at once.
unfoldable pub show_slot : Slot Peer → Value
unfolding peer_value
show_slot (own p) = peer_value p
show_slot inherited = undefined
show_slot missing = undefined

-- What the loop `for (const p of list)` reaches, with the times of its rounds, and whether it ends
-- without an error: the properties of `null` are one, and so is a list that is none.
abbrev pub entry : ℕ → Value → Announced
entry now v = record { now = now; id = prop "id" v; url = prop "url" v }

unfoldable pub reached : (ℕ → ℕ) → ℕ → Items → List Announced × Bool
reached clock i nil = ([], true)
reached clock i (cons undefined items) = ([], false)
reached clock i (cons null items) = ([], false)
reached clock i (cons v items) =
    let (entries, ended) = reached clock (i + 1) items in (entry (clock i) v ∷ entries, ended)

-- The characters of a text, which have neither `id` nor `url`.
unfoldable pub characters : (ℕ → ℕ) → ℕ → ℕ → List Announced
characters clock i zero = []
characters clock i (suc n) = entry (clock i) undefined ∷ characters clock (i + 1) n

unfoldable pub entries_of : (ℕ → ℕ) → Value → List Announced × Bool
unfolding reached characters
entries_of clock (arr items) = reached clock 0 items
entries_of clock (str s) = (characters clock 0 (Text.len s), true)
entries_of clock v = ([], false)

-- `property_key` converts a value to the name of a property, and `verify` checks routing packets.
module _ (property_key : Value → String) (verify : Value → Verified) where
  -- POST /p2p/announce, with the payload.
  unfoldable pub post_announce : ℕ → Value → Peers → Peers × Response
  unfolding show_slot
  post_announce now v peers =
      let (peers', slot) =
        add_peer property_key now (prop "id" (or_empty v)) (prop "url" (or_empty v)) peers in
      (peers', reply 200 (show_slot slot))

  -- POST /p2p/heartbeat, with the payload.
  unfoldable pub post_heartbeat : ℕ → Value → Peers → Peers × Response
  post_heartbeat now v peers = (
    (add_peer property_key now (prop "id" (or_empty v)) (prop "url" (or_empty v)) peers).0,
    reply 200 (obj (field "ok" (bool true) end)),
  )

  -- POST /p2p/merge, with the payload: the peers before an error stay.
  unfoldable pub post_merge : (ℕ → ℕ) → Value → Peers → Peers × Response
  unfolding entries_of
  post_merge clock v peers =
      let (entries, ended) = entries_of clock (prop "peers" (or_empty v)) in
      (
        merge_peers property_key entries peers,
        if ended
            then reply 200 (obj (field "ok" (bool true) end))
            else reply 400 (error "Invalid merge"),
      )

  -- The handler of the server of the node, with the readings of the clock, of which the first is that
  -- of the request.
  unfoldable pub handle : String → (ℕ → ℕ) → Request → Peers → Peers × Response
  unfolding post_announce post_heartbeat post_merge peer_values
  handle self_id clock r peers =
      if is_get r "/health"
      then (peers, reply 200 (obj (field "status" (str "ok") (field "id" (str self_id) end))))
      else if is_get r "/peers"
      then (peers, reply 200 (arr (peer_values (list_peers peers))))
      else if is_post r "/p2p/announce"
      then with_payload (parse_request_body verify r.body) peers
          (λ v crypto. post_announce (clock 0) v peers)
      else if is_post r "/p2p/heartbeat"
      then with_payload (parse_request_body verify r.body) peers
          (λ v crypto. post_heartbeat (clock 0) v peers)
      else if is_post r "/p2p/merge"
      then with_payload (parse_request_body verify r.body) peers
          (λ v crypto. post_merge clock v peers)
      else (peers, not_found)
