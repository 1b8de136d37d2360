-- ===== src/Crypto/Routing/Packets.antt =====
-- lib/nz-crypto-routing.js: which packets are accepted.
use new_zone_reference.Prelude.{
  ap, sym, ◌∙◌, ℕ, ◌+◌, ◌-◌, ◌*◌, ◌≤◌, String, ◌≡◌, refl, Bool, true, false, Option, none, some,
  arith, str_eq,
}
use new_zone_reference.Js.{Value, truthy, prop, find_field}
use new_zone_reference.Crypto.Routing.{
  field, end, str, Platform, NodeKeys, accepted, judge, check_signature, check_skew,
  verify_routing_packet, sign_routing_packet, build_signing_payload, unsigned, is_text, is_version,
  skew_ms, text_of,
}

module _ (platform : Platform) where
  judge-accepted :
      (answer : Option Bool) (id node_id : String) (v payload : Value)
      → judge answer id v ≡ accepted node_id payload
      → (answer ≡ some true) × (id ≡ node_id) × (v ≡ payload)
  unfolding judge
  judge-accepted none id node_id v payload h = cc
  judge-accepted (some true) id node_id v payload h = (refl, cc, cc)
  judge-accepted (some false) id node_id v payload h = cc

  check_signature-accepted :
      (key : Option String) (packet : Value) (node_id : String) (payload : Value)
      → check_signature platform key packet ≡ accepted node_id payload
      → (public_key : String) × (key ≡ some public_key)
        × (platform.verify public_key
              (build_signing_payload platform.json packet)
              (text_of (prop "signature" packet))
            ≡ some true)
        × (text_of (prop "node_id" packet) ≡ node_id)
        × (prop "payload" packet ≡ payload)
  unfolding check_signature
  check_signature-accepted none packet node_id payload h = cc
  check_signature-accepted (some public_key) packet node_id payload h =
      let (verified, named, passed) = judge-accepted _ _ node_id _ payload h in
      (public_key, refl, verified, named, passed)

  check_skew-accepted :
      (skew : Option ℕ) (limit : ℕ) (key : Option String) (packet : Value) (node_id : String)
      (payload : Value)
      → check_skew platform skew limit key packet ≡ accepted node_id payload
      → (n : ℕ) × (skew ≡ some n)
        × (n ≤ limit * 1000)
        × (check_signature platform key packet ≡ accepted node_id payload)
  unfolding check_skew
  check_skew-accepted none limit key packet node_id payload h = cc
  check_skew-accepted (some n) limit key packet node_id payload h =
      (n, refl, ground arith, ground arith)

  -- A packet is accepted only if it has the version, the sender has a public key, the signature
  -- verifies with that key over the signed fields, and the time stamp is a number that is at most the
  -- allowed skew away; the payload that is passed on is that of the packet.
  pub verify_routing_packet-accepted :
      (now : ℕ) (lookup : String → Option String) (max_skew_sec : ℕ) (packet : Value)
      (node_id : String) (payload : Value)
      → verify_routing_packet platform now lookup max_skew_sec packet ≡ accepted node_id payload
      → (public_key : String) × (skew : ℕ) × (is_version (prop "version" packet) ≡ true)
        × (lookup node_id ≡ some public_key)
        × (platform.verify public_key
              (build_signing_payload platform.json packet)
              (text_of (prop "signature" packet))
            ≡ some true)
        × (skew_ms now (prop "ts" packet) ≡ some skew)
        × (skew ≤ max_skew_sec * 1000)
        × (prop "payload" packet ≡ payload)
  unfolding verify_routing_packet
  verify_routing_packet-accepted now lookup max_skew_sec packet node_id payload h =
      let versioned : is_version (prop "version" packet) ≡ true = ground arith in
      let rest : check_skew platform (skew_ms now (prop "ts" packet)) max_skew_sec
            (lookup (text_of (prop "node_id" packet))) packet
          ≡ accepted node_id payload =
        ground arith in
      let (skew, timed, close, checked) =
        check_skew-accepted _ max_skew_sec _ packet node_id payload rest in
      let (public_key, known, verified, named, passed) =
        check_signature-accepted _ packet node_id payload checked in
      (public_key, skew, versioned, ap lookup (sym named) ∙ known, verified, timed, close, passed)

  -- A packet that a node has signed is accepted by every receiver that knows the node's public
  -- key, and the payload arrives, if the public key verifies what the private key signs, no
  -- signature is empty, the node's identifier and the nonce are not empty, and the clocks differ
  -- by no more than the allowed skew.
  pub verify_routing_packet-sign_routing_packet :
      (keys : NodeKeys) (node_id nonce : String) (payload : Value) (sent now : ℕ)
      (lookup : String → Option String) (max_skew_sec : ℕ) (packet : Value)
      → ((text : String)
          → platform.verify keys.ed25519_public text (platform.sign keys.ed25519_private text)
            ≡ some true)
      → ((text : String) → str_eq (platform.sign keys.ed25519_private text) "" ≡ false)
      → str_eq node_id "" ≡ false
      → str_eq nonce "" ≡ false
      → lookup node_id ≡ some keys.ed25519_public
      → now - sent + (sent - now) ≤ max_skew_sec * 1000
      → sign_routing_packet platform keys (str node_id) payload sent nonce ≡ some packet
      → verify_routing_packet platform now lookup max_skew_sec packet ≡ accepted node_id payload
  unfolding verify_routing_packet sign_routing_packet unsigned prop find_field is_text is_version
      skew_ms check_skew check_signature judge truthy build_signing_payload
  verify_routing_packet-sign_routing_packet keys node_id nonce payload sent now lookup max_skew_sec
        packet valid filled named fresh known close made =
      let text =
        build_signing_payload platform.json (unsigned (str node_id) sent nonce payload end) in
      let signature = platform.sign keys.ed25519_private text in
      let signed : unsigned (str node_id) sent nonce payload (field "signature" (str signature) end)
          ≡ packet =
        ground arith in
      rw (← signed) (ground (arith, named, fresh, filled text, known, valid text, close))
