-- ===== src/Crypto/Ed25519.antt =====
-- lib/ed25519.js: Ed25519 signatures over node:crypto, with contexts and for hashed messages.
pub mod Signatures
use new_zone_reference.Prelude.{
  ℕ, zero, suc, ◌+◌, ◌-◌, ◌*◌, ◌/◌, ◌%◌, ◌^◌, ◌≤◌, ◌<◌, String, ◌≡◌, refl, sym, ap, ◌∙◌, ◌≢◌, ◌↔◌,
  ◌⊎◌, inl, inr, Bool, true, false, not, ◌&&◌, ◌||◌, Option, none, some, List, [], ◌∷◌, ◌++◌, map,
  append_assoc, append-nil, arith, str_eq, eq_iff, eq_refl, ltb, leb, ◌==◌, if◌then◌else◌, ltb→lt,
  lt→ltb, leb→le, ==_iff, Bool-cases, Option-cases, List-cases, length, take, drop, replicate,
  filter, length-append, length-take, length-drop, length-replicate, length-filter, length-map,
  take-append-drop, take-append, drop-append, take_of_le, drop-append_of_le, drop-drop, drop-nil,
  last, length-last, last_of_le, last-last, push_bounded, length-push_bounded, push_bounded-last,
  push_all, push_all-last,
}
use new_zone_reference.Crypto.Bytes.{Bytes}
use new_zone_reference.Crypto.Result.{
  Result, ok, err, ◌>>=◌, ◌>>◌, throw_if, invalid_seed, context_too_long, invalid_prehash,
}

-- The DER prefixes of a private key (PKCS#8) and of a public key (SPKI).
abbrev pub pkcs8_prefix : Bytes
pkcs8_prefix =
    0x30 ∷ 0x2e ∷ 0x02 ∷ 0x01 ∷ 0x00 ∷ 0x30 ∷ 0x05 ∷ 0x06 ∷ 0x03 ∷ 0x2b ∷ 0x65 ∷ 0x70 ∷ 0x04 ∷ 0x22
    ∷ 0x04 ∷ 0x20 ∷ []

abbrev pub spki_prefix : Bytes
spki_prefix = 0x30 ∷ 0x2a ∷ 0x30 ∷ 0x05 ∷ 0x06 ∷ 0x03 ∷ 0x2b ∷ 0x65 ∷ 0x70 ∷ 0x03 ∷ 0x21 ∷ 0x00 ∷ []

-- What node:crypto does with keys in DER: a private key signs and has a public key, whose DER is the
-- prefix and 32 bytes; a signature has 64 bytes, and the public key verifies what its private key
-- has signed.
pub record Signer : Type 0 where
  pub sign : Bytes → Bytes → Bytes
  pub verify : Bytes → Bytes → Bytes → Bool
  pub raw_public : Bytes → Bytes
  pub length-sign : (key text : Bytes) → length (sign key text) ≡ 64
  pub length-raw_public : (key : Bytes) → length (raw_public key) ≡ 32
  pub verify-sign :
      (key text : Bytes) → verify (spki_prefix ++ raw_public key) text (sign key text) ≡ true

-- "SigEd25519 no Ed25519 collisions"
abbrev pub dom_prefix : Bytes
dom_prefix =
    0x53 ∷ 0x69 ∷ 0x67 ∷ 0x45 ∷ 0x64 ∷ 0x32 ∷ 0x35 ∷ 0x35 ∷ 0x31 ∷ 0x39 ∷ 0x20 ∷ 0x6e ∷ 0x6f ∷ 0x20
    ∷ 0x45 ∷ 0x64 ∷ 0x32 ∷ 0x35 ∷ 0x35 ∷ 0x31 ∷ 0x39 ∷ 0x20 ∷ 0x63 ∷ 0x6f ∷ 0x6c ∷ 0x6c ∷ 0x69
    ∷ 0x73 ∷ 0x69 ∷ 0x6f ∷ 0x6e ∷ 0x73 ∷ []

-- `dom2`, where no context is the empty one.
unfoldable pub dom2 : ℕ → Bytes → Result Bytes
dom2 prefix_flag context = do
  throw_if (ltb 255 (length context)) context_too_long
  ok (dom_prefix ++ prefix_flag ∷ length context ∷ context)

module _ (signer : Signer) where
  -- `ed25519GetPublicKey`: the last 32 bytes of the DER.
  unfoldable pub ed25519_get_public_key : Bytes → Result Bytes
  ed25519_get_public_key seed = do
    throw_if (not (length seed == 32)) invalid_seed
    (let pub_der = spki_prefix ++ signer.raw_public (pkcs8_prefix ++ seed) in
        ok (drop (length pub_der - 32) pub_der))

  -- `ed25519Sign`
  unfoldable pub ed25519_sign : Bytes → Bytes → Result Bytes
  ed25519_sign msg seed = do
    throw_if (not (length seed == 32)) invalid_seed
    ok (signer.sign (pkcs8_prefix ++ seed) msg)

  -- `ed25519Verify`
  unfoldable pub ed25519_verify : Bytes → Bytes → Bytes → Bool
  ed25519_verify msg sig public =
      if not (length public == 32)
      then false
      else if not (length sig == 64)
      then false
      else signer.verify (spki_prefix ++ public) msg sig

  -- `ed25519SignCtx`
  unfoldable pub ed25519_sign_ctx : Bytes → Bytes → Bytes → Result Bytes
  unfolding dom2
  ed25519_sign_ctx msg seed context = do dom ← dom2 0x01 context; ed25519_sign (dom ++ msg) seed

  -- `ed25519VerifyCtx`
  unfoldable pub ed25519_verify_ctx : Bytes → Bytes → Bytes → Bytes → Result Bool
  unfolding dom2
  ed25519_verify_ctx public msg sig context = do
    dom ← dom2 0x01 context
    ok (ed25519_verify (dom ++ msg) sig public)

  -- `ed25519SignPh`
  unfoldable pub ed25519_sign_ph : Bytes → Bytes → Bytes → Result Bytes
  unfolding dom2
  ed25519_sign_ph prehashed_msg seed context = do
    throw_if (not (length prehashed_msg == 64)) invalid_prehash
    dom ← dom2 0x02 context
    ed25519_sign (dom ++ prehashed_msg) seed

  -- `ed25519VerifyPh`
  unfoldable pub ed25519_verify_ph : Bytes → Bytes → Bytes → Bytes → Result Bool
  unfolding dom2
  ed25519_verify_ph public prehashed_msg sig context = do
    throw_if (not (length prehashed_msg == 64)) invalid_prehash
    dom ← dom2 0x02 context
    ok (ed25519_verify (dom ++ prehashed_msg) sig public)
