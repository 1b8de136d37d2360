-- ===== src/Tests/Handshake.antt =====
-- The theorems about the handshake at concrete inputs.
use new_zone_reference.Prelude.{◌≡◌, refl, true, some, replicate}
use new_zone_reference.Crypto.Bytes.{Bytes}
use new_zone_reference.Crypto.Result.{ok}
use new_zone_reference.Crypto.X25519.{x25519}
use new_zone_reference.Crypto.Ed25519.{Signer, ed25519_get_public_key}
use new_zone_reference.Crypto.Handshake.{
  AliceHello, BobHello, done, alice_start_handshake, bob_respond_handshake, alice_finish_handshake,
}
use new_zone_reference.Crypto.Handshake.Agreement.{handshake_completes}

-- A signer whose signatures all are the same, and verify.
abbrev signer : Signer
signer = record {
  sign = λ key text. replicate 64 7;
  verify = λ key text sig. true;
  raw_public = λ key. replicate 32 9;
  length-sign = λ key text. refl;
  length-raw_public = λ key. refl;
  verify-sign = λ key text. refl;
}

abbrev seed : Bytes
seed = replicate 32 1

abbrev public : Bytes
public = replicate 32 9

handshake_completes_example :
    (hello : AliceHello) × (answer : BobHello) × (secret : Bytes) × (alice_start_handshake signer
        seed seed
      ≡ ok hello)
    × (bob_respond_handshake signer seed hello.ephemeral_pub hello.sig public seed
        ≡ ok (done answer))
    × (alice_finish_handshake signer hello.ephemeral_secret answer.ephemeral_pub answer.sig public
        ≡ ok (done secret))
    × (x25519 seed hello.ephemeral_pub ≡ some answer.shared_secret)
    × (x25519 seed answer.ephemeral_pub ≡ some secret)
unfolding ed25519_get_public_key
handshake_completes_example =
    handshake_completes signer seed seed seed seed public public refl refl refl refl refl refl
