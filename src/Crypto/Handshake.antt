-- ===== src/Crypto/Handshake.antt =====
-- lib/handshake.js: the handshake that exchanges signed X25519 keys.
pub mod Agreement
use new_zone_reference.Prelude.{
  ℕ, zero, suc, ◌+◌, ◌-◌, ◌*◌, ◌/◌, ◌%◌, ◌^◌, ◌≤◌, ◌<◌, String, ◌≡◌, refl, sym, ap, ◌∙◌, ◌≢◌, ◌↔◌,
  ◌⊎◌, inl, inr, Bool, true, false, not, ◌&&◌, ◌||◌, Option, none, some, List, [], ◌∷◌, ◌++◌, map,
  append_assoc, append-nil, arith, str_eq, eq_iff, eq_refl, ltb, leb, ◌==◌, if◌then◌else◌, ltb→lt,
  lt→ltb, leb→le, ==_iff, Bool-cases, Option-cases, List-cases, length, take, drop, replicate,
  filter, length-append, length-take, length-drop, length-replicate, length-filter, length-map,
  take-append-drop, take-append, drop-append, take_of_le, drop-append_of_le, drop-drop, drop-nil,
  last, length-last, last_of_le, last-last, push_bounded, length-push_bounded, push_bounded-last,
  push_all, push_all-last,
}
use new_zone_reference.Crypto.Bytes.{Bytes, concat_bytes}
use new_zone_reference.Crypto.Result.{Result, ok, err, ◌>>=◌, ◌>>◌, invalid_scalar}
use new_zone_reference.Crypto.X25519.{x25519, x25519_base}
use new_zone_reference.Crypto.Ed25519.{Signer, ed25519_sign, ed25519_verify}

-- "NZ-CRYPTO-02/handshake/v1" in ASCII.
abbrev pub handshake_label : Bytes
handshake_label =
    78 ∷ 90 ∷ 45 ∷ 67 ∷ 82 ∷ 89 ∷ 80 ∷ 84 ∷ 79 ∷ 45 ∷ 48 ∷ 50 ∷ 47 ∷ 104 ∷ 97 ∷ 110 ∷ 100 ∷ 115
    ∷ 104 ∷ 97 ∷ 107 ∷ 101 ∷ 47 ∷ 118 ∷ 49 ∷ []

pub record AliceHello : Type 0 where
  pub ephemeral_secret : Bytes
  pub ephemeral_pub : Bytes
  pub sig : Bytes

pub record BobHello : Type 0 where
  pub ephemeral_secret : Bytes
  pub ephemeral_pub : Bytes
  pub sig : Bytes
  pub shared_secret : Bytes

-- `{ ok: false, error }` or a result.
pub data Outcome {ℓ} (A : Type ℓ) : Type ℓ where
  done : A → Outcome A
  identity_signature_invalid : Outcome A

-- The error of lib/x25519.js for a scalar or a coordinate of another length.
unfoldable pub or_throw : Option Bytes → Result Bytes
or_throw none = err invalid_scalar
or_throw (some bytes) = ok bytes

module _ (signer : Signer) where
  -- `aliceStartHandshake`, with the random secret.
  unfoldable pub alice_start_handshake : Bytes → Bytes → Result AliceHello
  unfolding or_throw concat_bytes
  alice_start_handshake secret alice_identity_private_seed = do
    alice_pub ← or_throw (x25519_base secret)
    sig ← ed25519_sign signer (concat_bytes handshake_label alice_pub) alice_identity_private_seed
    ok (record { ephemeral_secret = secret; ephemeral_pub = alice_pub; sig = sig })

  -- `bobRespondHandshake`, with the random secret.
  unfoldable pub bob_respond_handshake :
      Bytes → Bytes → Bytes → Bytes → Bytes → Result (Outcome BobHello)
  unfolding or_throw concat_bytes
  bob_respond_handshake secret alice_pub alice_sig alice_identity_public_key
        bob_identity_private_seed =
      if not (
        ed25519_verify signer (concat_bytes handshake_label alice_pub) alice_sig
          alice_identity_public_key)
      then ok identity_signature_invalid
      else (do
        bob_pub ← or_throw (x25519_base secret)
        sig ← ed25519_sign signer (concat_bytes handshake_label bob_pub) bob_identity_private_seed
        shared_secret ← or_throw (x25519 secret alice_pub)
        ok (
            done (record {
              ephemeral_secret = secret;
              ephemeral_pub = bob_pub;
              sig = sig;
              shared_secret = shared_secret;
            })))

  -- `aliceFinishHandshake`
  unfoldable pub alice_finish_handshake : Bytes → Bytes → Bytes → Bytes → Result (Outcome Bytes)
  unfolding or_throw concat_bytes
  alice_finish_handshake alice_secret bob_pub bob_sig bob_identity_public_key =
      if not (
        ed25519_verify signer (concat_bytes handshake_label bob_pub) bob_sig
          bob_identity_public_key)
      then ok identity_signature_invalid
      else (do shared_secret ← or_throw (x25519 alice_secret bob_pub); ok (done shared_secret))
