-- ===== src/Services/Peers/Bounds.antt =====
-- services/p2p_node/index.js: the size of the peer registry, and who stays in it.
use new_zone_reference.Prelude.Sort.{All}
use new_zone_reference.Js.Object.{own, read, slot_of}
use new_zone_reference.Js.{Value}
use new_zone_reference.Prelude.{
  ℕ, ◌≤◌, ◌<◌, String, ◌≡◌, refl, inl, inr, true, none, some, List, [], ◌∷◌, arith, eq_iff, eq_refl,
  ltb, Bool-cases, Option-cases, length, length-map,
}
use new_zone_reference.Prelude.Dict.{
  is_some, put, keys, IsDistinct, length-put, put-IsDistinct, put_absent, get, get-put, get-remove,
}
use new_zone_reference.Services.Oldest.{
  oldest_key, evict_oldest, oldest_key-some, oldest_key-append, oldest_key-least,
  evict_oldest-IsDistinct,
}
use new_zone_reference.Services.Peers.{Peer, Peers, max_peers, add_peer, Announced, merge_peers}

pub record IsValid (peers : Peers) : Type 0 where
  pub distinct : IsDistinct peers
  pub bounded : length peers ≤ max_peers

length-keys : (peers : Peers) → length (keys peers) ≡ length peers
length-keys peers = length-map (λ e. e.0) peers

-- Adding a peer keeps the registry at 200 peers at most, with no identifier twice.
pub add_peer-IsValid :
    (property_key : Value → String) (now : ℕ) (id url : Value) (peers : Peers)
    → IsValid peers
    → IsValid (add_peer property_key now id url peers).0
unfolding add_peer
add_peer-IsValid property_key now id url peers v =
    let peer : Peer = record { id = id; url = url; ts = now } in
    let u = put-IsDistinct (property_key id) peer peers v.distinct in
    elim (Bool-cases (ltb max_peers (length (keys (put (property_key id) peer peers))))) [
      | inl over ↦
          let (u', less) =
            evict_oldest-IsDistinct (λ p. p.ts) (put (property_key id) peer peers) u
              (ground (arith, length-keys (put (property_key id) peer peers))) in
          rw over (record {
            distinct = u';
            bounded = ground (arith, v.bounded, less, length-put (property_key id) peer peers);
          })
      | inr fits ↦ rw fits (record {
        distinct = u;
        bounded = ground (arith, length-keys (put (property_key id) peer peers));
      })
    ]

-- Merging any list of peers keeps the registry at 200 peers at most.
pub merge_peers-IsValid :
    (property_key : Value → String) (list : List Announced) (peers : Peers)
    → IsValid peers
    → IsValid (merge_peers property_key list peers)
unfolding merge_peers
merge_peers-IsValid property_key [] peers v = v
merge_peers-IsValid property_key (p ∷ list) peers v =
    merge_peers-IsValid property_key list (add_peer property_key p.now p.id p.url peers).0
      (add_peer-IsValid property_key p.now p.id p.url peers v)

module _ (property_key : Value → String) (now : ℕ) (id url : Value) (peers : Peers)
    (v : IsValid peers) where
  abbrev peer : Peer
  peer = record { id = id; url = url; ts = now }

  read_known :
      is_some (get (property_key id) peers) ≡ true
      → (add_peer property_key now id url peers).1 ≡ own peer
  unfolding add_peer read slot_of
  read_known known = ground (
    arith,
    v.bounded,
    length-keys (put (property_key id) peer peers),
    length-put (property_key id) peer peers,
    get-put (property_key id) (property_key id) peer peers,
    eq_refl (property_key id),
  )

  read_new :
      All (λ p. p.1.ts ≤ now) peers
      → get (property_key id) peers ≡ none
      → (add_peer property_key now id url peers).1 ≡ own peer
  unfolding add_peer read slot_of evict_oldest get
  read_new newest absent =
      elim (Bool-cases (ltb max_peers (length (keys (put (property_key id) peer peers))))) [
        | inr fits ↦ rw fits (
            ground (
              arith,
              get-put (property_key id) (property_key id) peer peers,
              eq_refl (property_key id),
            ))
        | inl over ↦
            let full : 0 < length peers = ground (
              arith,
              length-keys (put (property_key id) peer peers),
              length-put (property_key id) peer peers,
            ) in
            let (old, found) = oldest_key-some (λ p. p.ts) peers full in
            let (e, there, least) = oldest_key-least (λ p. p.ts) peers old v.distinct found in
            let same : oldest_key (λ p. p.ts) (put (property_key id) peer peers) ≡ some old =
              rw
                (
                  put_absent (property_key id) peer peers absent,
                  oldest_key-append (λ p. p.ts) peers (property_key id) peer full newest,
                )
                found in
            rw (over, same, evict_oldest)
              (ground (
                arith,
                eq_iff old (property_key id),
                get-remove old (property_key id) (put (property_key id) peer peers),
                get-put (property_key id) (property_key id) peer peers,
                eq_refl (property_key id),
              ))
      ]

  -- If the clock has not gone back, `addPeer` returns the peer that it was given with the time of
  -- the call: the peer is in the registry and was not evicted at once.
  pub add_peer-own :
      All (λ p. p.1.ts ≤ now) peers → (add_peer property_key now id url peers).1 ≡ own peer
  add_peer-own newest = elim (Option-cases (get (property_key id) peers)) [
    | inl absent ↦ read_new newest absent
    | inr (p, known) ↦ read_known (rw known refl)
  ]
