-- ===== src/Crypto/Facade/Signed/Acceptance.antt =====
-- lib/nz-crypto.js: which signed packets are accepted.
use new_zone_reference.Prelude.{
  ℕ, suc, ◌+◌, ◌-◌, ◌≤◌, String, ◌≡◌, refl, ap, Bool, true, false, Option, none, some, [], ◌∷◌,
  length, arith, str_eq, eq_refl, if◌then◌else◌,
}
use new_zone_reference.Js.{Value, str, num, end, truthy, prop, find_field}
use new_zone_reference.Prelude.Int.{pos}
use new_zone_reference.Crypto.Bytes.{Bytes}
use new_zone_reference.Crypto.Result.{ok, >>=-eq-ok, ok_inj}
use new_zone_reference.Crypto.Ed25519.{Signer, ed25519_sign, ed25519_verify, ed25519_get_public_key}
use new_zone_reference.Crypto.Ed25519.Signatures.{
  ed25519_verify-ed25519_sign, ed25519_verify-length,
}
use new_zone_reference.Crypto.Facade.{Tools, sha256_hex_of, without}
use new_zone_reference.Crypto.Facade.Signed.{
  Checked, accepted, refused, thrown, invalid_signature, auth_fields, signed_bytes,
  build_signed_packet, verify_signed_packet, check_signature, skew_sec, exceeds, is_replay,
  is_same_text, has_auth_fields, fields_of,
}

module _ (tools : Tools) (signer : Signer) where
  abbrev value_or : Value → Checked → Value
  value_or d (accepted v) = v
  value_or d (refused r) = d
  value_or d thrown = d

  if_accepted :
      (b : Bool) (v node_id : Value)
      → (if b then accepted v else refused invalid_signature) ≡ accepted node_id
      → (b ≡ true) × (v ≡ node_id)
  if_accepted true v node_id h = (refl, ap (value_or v) h)
  if_accepted false v node_id h = cc

  check_signature-accepted :
      (key sig : Option Bytes) (auth node_id : Value)
      → check_signature tools signer key sig auth ≡ accepted node_id
      → (pub_key : Bytes) × (sig_bytes : Bytes) × (key ≡ some pub_key)
        × (sig ≡ some sig_bytes)
        × (ed25519_verify signer
              (signed_bytes tools (without "signature" (fields_of auth)))
              sig_bytes
              pub_key
            ≡ true)
        × (prop "node_id" auth ≡ node_id)
  unfolding check_signature
  check_signature-accepted none sig auth node_id h = cc
  check_signature-accepted (some pub_key) none auth node_id h = cc
  check_signature-accepted (some pub_key) (some sig_bytes) auth node_id h =
      let (verified, named) = if_accepted _ (prop "node_id" auth) node_id h in
      (pub_key, sig_bytes, refl, refl, verified, named)

  -- A signed packet is accepted only if its body hashes to the hash in the signed fields, the nonce
  -- has not been seen, the time stamp is no number that is further away than the allowed skew, and
  -- the signature verifies over the signed fields with the key of the node that they name.
  pub verify_signed_packet-accepted :
      (now : ℕ) (lookup : Value → Option Bytes) (max_skew_sec : ℕ)
      (seen : Option (Value → Value → Bool)) (packet node_id : Value)
      → verify_signed_packet tools signer now lookup max_skew_sec seen packet ≡ accepted node_id
      → let auth = prop "auth" packet in
        (pub_key : Bytes) × (sig_bytes : Bytes) × (is_same_text
            (sha256_hex_of tools (prop "body" packet))
            (prop "body_hash" auth)
          ≡ true)
        × (is_replay seen (prop "node_id" auth) (prop "nonce" auth) ≡ false)
        × (exceeds (skew_sec tools now (prop "timestamp" auth)) max_skew_sec ≡ false)
        × (lookup (prop "node_id" auth) ≡ some pub_key)
        × (tools.b64_to_u8 (prop "signature" auth) ≡ some sig_bytes)
        × (ed25519_verify signer
              (signed_bytes tools (without "signature" (fields_of auth)))
              sig_bytes
              pub_key
            ≡ true)
        × (prop "node_id" auth ≡ node_id)
  unfolding verify_signed_packet
  verify_signed_packet-accepted now lookup max_skew_sec seen packet node_id h =
      let auth = prop "auth" packet in
      let hashed : is_same_text (sha256_hex_of tools (prop "body" packet)) (prop "body_hash" auth)
          ≡ true =
        ground arith in
      let new : is_replay seen (prop "node_id" auth) (prop "nonce" auth) ≡ false = ground arith in
      let timely : exceeds (skew_sec tools now (prop "timestamp" auth)) max_skew_sec ≡ false =
        ground arith in
      let rest : check_signature tools signer (lookup (prop "node_id" auth))
            (tools.b64_to_u8 (prop "signature" auth)) auth
          ≡ accepted node_id =
        ground arith in
      let (pub_key, sig_bytes, known, decoded, verified, named) =
        check_signature-accepted _ _ auth node_id rest in
      (pub_key, sig_bytes, hashed, new, timely, known, decoded, verified, named)

  signature_text :
      ((b : ℕ) (bs : Bytes) → str_eq (tools.u8_to_b64 (b ∷ bs)) "" ≡ false)
      → (sig : Bytes) → length sig ≡ 64
      → str_eq (tools.u8_to_b64 sig) "" ≡ false
  signature_text filled [] h = absurd (omega (arith, h))
  signature_text filled (b ∷ bs) h = filled b bs

  -- A packet that was built with a seed is accepted by every receiver that knows the public key of
  -- the seed under the node's identifier, if the identifier, the body, the nonce and the text of the
  -- hash are truthy, the time of building is a positive number of seconds and at most the allowed skew
  -- away, the nonce has not been seen, and base64 gives the signature back and makes no empty text of
  -- bytes that are there.
  pub verify_signed_packet-build_signed_packet :
      (node_id body packet : Value) (seed public : Bytes) (sent now max_skew_sec : ℕ)
      (nonce : String) (lookup : Value → Option Bytes) (seen : Option (Value → Value → Bool))
      → ((sig : Bytes)
          → ed25519_sign signer
              (signed_bytes tools
                (auth_fields node_id (suc sent) nonce (sha256_hex_of tools body) end))
              seed
            ≡ ok sig
          → tools.b64_to_u8 (str (tools.u8_to_b64 sig)) ≡ some sig)
      → ((b : ℕ) (bs : Bytes) → str_eq (tools.u8_to_b64 (b ∷ bs)) "" ≡ false)
      → tools.to_number (num (pos (suc sent))) ≡ some (pos (suc sent))
      → truthy node_id ≡ true
      → truthy body ≡ true
      → str_eq nonce "" ≡ false
      → str_eq (sha256_hex_of tools body) "" ≡ false
      → is_replay seen node_id (str nonce) ≡ false
      → lookup node_id ≡ some public
      → ed25519_get_public_key signer seed ≡ ok public
      → now - suc sent + (suc sent - now) ≤ max_skew_sec
      → build_signed_packet tools signer node_id seed body (suc sent) nonce ≡ ok packet
      → verify_signed_packet tools signer now lookup max_skew_sec seen packet ≡ accepted node_id
  unfolding verify_signed_packet build_signed_packet prop find_field truthy has_auth_fields skew_sec
      exceeds is_same_text check_signature without
  verify_signed_packet-build_signed_packet node_id body packet seed public sent now max_skew_sec
        nonce lookup seen coded filled counted named bodied fresh hashed unseen known made close
        built =
      let auth = auth_fields node_id (suc sent) nonce (sha256_hex_of tools body) end in
      let (sig, signed, finished) =
        >>=-eq-ok (ed25519_sign signer (signed_bytes tools auth) seed) _ built in
      let verified =
        ed25519_verify-ed25519_sign signer (signed_bytes tools auth) seed sig public signed made in
      let shown =
        signature_text filled sig
          (ed25519_verify-length signer (signed_bytes tools auth) sig public verified) in
      rw (← ok_inj finished) (
        ground (
          arith,
          coded sig signed,
          shown,
          counted,
          named,
          bodied,
          fresh,
          hashed,
          unseen,
          known,
          close,
          verified,
          eq_refl (sha256_hex_of tools body),
        ))
