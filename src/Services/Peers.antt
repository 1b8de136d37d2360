-- ===== src/Services/Peers.antt =====
-- services/p2p_node/index.js: the peer registry, which keeps at most 200 peers.
pub mod Bounds
pub mod Server
pub mod Requests
use new_zone_reference.Js.{Value}
use new_zone_reference.Prelude.{
  ℕ, zero, suc, ◌+◌, ◌-◌, ◌*◌, ◌/◌, ◌%◌, ◌^◌, ◌≤◌, ◌<◌, String, ◌≡◌, refl, sym, ap, ◌∙◌, ◌≢◌, ◌↔◌,
  ◌⊎◌, inl, inr, Bool, true, false, not, ◌&&◌, ◌||◌, Option, none, some, List, [], ◌∷◌, ◌++◌, map,
  append_assoc, append-nil, arith, str_eq, eq_iff, eq_refl, ltb, leb, ◌==◌, if◌then◌else◌, ltb→lt,
  lt→ltb, leb→le, ==_iff, Bool-cases, Option-cases, List-cases, length, take, drop, replicate,
  filter, length-append, length-take, length-drop, length-replicate, length-filter, length-map,
  take-append-drop, take-append, drop-append, take_of_le, drop-append_of_le, drop-drop, drop-nil,
  last, length-last, last_of_le, last-last, push_bounded, length-push_bounded, push_bounded-last,
  push_all, push_all-last,
}
use new_zone_reference.Prelude.Dict.{Dict, get, put, remove, keys, values}
use new_zone_reference.Services.Oldest.{evict_oldest}
use new_zone_reference.Js.Object.{Slot, read}

pub record Peer : Type 0 where
  pub id : Value
  pub url : Value
  pub ts : ℕ

abbrev pub Peers : Type 0
Peers = Dict Peer

abbrev pub max_peers : ℕ
max_peers = 200

-- `addPeer`, for an identifier whose name is not `__proto__`: the new registry and what it returns,
-- `PEERS[id]`. `property_key` converts a value to the name of a property.
unfoldable pub add_peer : (Value → String) → ℕ → Value → Value → Peers → Peers × Slot Peer
add_peer property_key now id url peers =
    let key = property_key id in
    let added = put key (record { id = id; url = url; ts = now }) peers in
    let kept =
      if ltb max_peers (length (keys added)) then evict_oldest (λ p. p.ts) added else added in
    (kept, read key kept)

-- `listPeers`
unfoldable pub list_peers : Peers → List Peer
list_peers peers = values peers

-- An entry of a received peer list, and the time at which the loop reaches it.
pub record Announced : Type 0 where
  pub now : ℕ
  pub id : Value
  pub url : Value

-- `mergePeers`
unfoldable pub merge_peers : (Value → String) → List Announced → Peers → Peers
merge_peers property_key [] peers = peers
merge_peers property_key (p ∷ list) peers =
    merge_peers property_key list (add_peer property_key p.now p.id p.url peers).0
