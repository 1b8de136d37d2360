-- ===== src/Crypto/Handshake/Agreement.antt =====
-- lib/handshake.js: a whole run between two parties.
use new_zone_reference.Prelude.{◌++◌, ◌≡◌, refl, ◌∙◌, inl, inr, some, Option-cases, length}
use new_zone_reference.Crypto.Bytes.{Bytes, concat_bytes}
use new_zone_reference.Crypto.Result.{ok}
use new_zone_reference.Crypto.X25519.{x25519, x25519_base}
use new_zone_reference.Crypto.X25519.Scalars.{
  base_point, x25519-none_iff, x25519-canonical, x25519_base_lem,
}
use new_zone_reference.Crypto.Ed25519.{pkcs8_prefix, Signer, ed25519_sign, ed25519_get_public_key}
use new_zone_reference.Crypto.Ed25519.Signatures.{ed25519_verify-ed25519_sign}
use new_zone_reference.Crypto.Handshake.{
  AliceHello, BobHello, done, handshake_label, or_throw, alice_start_handshake,
  bob_respond_handshake, alice_finish_handshake,
}

x25519-defined :
    (k u : Bytes)
    → length k ≡ 32
    → length u ≡ 32
    → (out : Bytes) × (x25519 k u ≡ some out) × (length out ≡ 32)
x25519-defined k u hk hu = elim (Option-cases (x25519 k u)) [
  | inl failed ↦ absurd ((x25519-none_iff k u).0 failed (hk, hu))
  | inr (out, made) ↦ (out, made, (x25519-canonical k u out made).0)
]

x25519_base-defined :
    (k : Bytes) → length k ≡ 32 → (out : Bytes) × (x25519_base k ≡ some out) × (length out ≡ 32)
x25519_base-defined k hk =
    let (out, made, sized) = x25519-defined k base_point hk refl in
    (out, x25519_base_lem k ∙ made, sized)

module _ (signer : Signer) where
  signed :
      (msg seed : Bytes)
      → length seed ≡ 32
      → (sig : Bytes) × (ed25519_sign signer msg seed ≡ ok sig)
  unfolding ed25519_sign
  signed msg seed h = (signer.sign (pkcs8_prefix ++ seed) msg, rw h refl)

  -- If all secrets and seeds have 32 bytes and each party knows the public key of the other one's
  -- seed, the handshake goes through: Alice's hello is made, Bob accepts it and answers, and Alice
  -- accepts the answer; each party's secret is the exchange of its own ephemeral secret with the
  -- other one's ephemeral key.
  pub handshake_completes :
      (alice_secret bob_secret alice_seed bob_seed alice_key bob_key : Bytes)
      → length alice_secret ≡ 32
      → length bob_secret ≡ 32
      → length alice_seed ≡ 32
      → length bob_seed ≡ 32
      → ed25519_get_public_key signer alice_seed ≡ ok alice_key
      → ed25519_get_public_key signer bob_seed ≡ ok bob_key
      → (hello : AliceHello) × (answer : BobHello) × (secret : Bytes) × (alice_start_handshake
            signer alice_secret alice_seed
          ≡ ok hello)
        × (bob_respond_handshake signer bob_secret hello.ephemeral_pub hello.sig alice_key bob_seed
            ≡ ok (done answer))
        × (alice_finish_handshake signer hello.ephemeral_secret answer.ephemeral_pub answer.sig
              bob_key
            ≡ ok (done secret))
        × (x25519 bob_secret hello.ephemeral_pub ≡ some answer.shared_secret)
        × (x25519 alice_secret answer.ephemeral_pub ≡ some secret)
  unfolding alice_start_handshake bob_respond_handshake alice_finish_handshake or_throw
  handshake_completes alice_secret bob_secret alice_seed bob_seed alice_key bob_key ha hb ka kb ida
        idb =
      let (alice_pub, alice_made, alice_sized) = x25519_base-defined alice_secret ha in
      let (bob_pub, bob_made, bob_sized) = x25519_base-defined bob_secret hb in
      let (alice_sig, alice_signed) =
        signed (concat_bytes handshake_label alice_pub) alice_seed ka in
      let (bob_sig, bob_signed) = signed (concat_bytes handshake_label bob_pub) bob_seed kb in
      let (bob_shared, bob_agreed, u) = x25519-defined bob_secret alice_pub hb alice_sized in
      let (alice_shared, alice_agreed, v) = x25519-defined alice_secret bob_pub ha bob_sized in
      let alice_verified =
        ed25519_verify-ed25519_sign signer (concat_bytes handshake_label alice_pub) alice_seed
          alice_sig alice_key alice_signed ida in
      let bob_verified =
        ed25519_verify-ed25519_sign signer (concat_bytes handshake_label bob_pub) bob_seed bob_sig
          bob_key bob_signed idb in
      (
        record { ephemeral_secret = alice_secret; ephemeral_pub = alice_pub; sig = alice_sig },
        record {
          ephemeral_secret = bob_secret;
          ephemeral_pub = bob_pub;
          sig = bob_sig;
          shared_secret = bob_shared;
        },
        alice_shared,
        rw (alice_made, alice_signed) refl,
        rw (alice_verified, bob_made, bob_signed, bob_agreed) refl,
        rw (bob_verified, alice_agreed) refl,
        bob_agreed,
        alice_agreed,
      )
