-- ===== src/Crypto/Facade/Keys.antt =====
-- lib/nz-crypto.js: the import of keys, and the key of a session.
use new_zone_reference.Prelude.{ℕ, String, not, Option, none, [], ◌∷◌, ◌==◌, length}
use new_zone_reference.Crypto.Bytes.{Bytes}
use new_zone_reference.Crypto.Result.{Result, ok, ◌>>=◌, ◌>>◌, throw_if, invalid_seed}
use new_zone_reference.Crypto.Ed25519.{Signer, ed25519_get_public_key}
use new_zone_reference.Crypto.X25519.{x25519, x25519_base}
use new_zone_reference.Crypto.Handshake.{or_throw}
use new_zone_reference.Crypto.Hkdf.{Hashes, blake2b, hkdf}

pub record KeyPair : Type 0 where
  pub public_key : Bytes
  pub private_key : Bytes

-- `ed25519_importPublicKey` and `x25519_importPublicKey`
unfoldable pub import_public_key : Bytes → Result Bytes
import_public_key pub32 = do throw_if (not (length pub32 == 32)) invalid_seed; ok pub32

-- `ed25519_importPrivateKey`; `ed25519_generateKeyPair` calls it with 32 random bytes.
unfoldable pub ed25519_import_private_key : Signer → Bytes → Result KeyPair
ed25519_import_private_key signer seed32 = do
  throw_if (not (length seed32 == 32)) invalid_seed
  public_key ← ed25519_get_public_key signer seed32
  ok (record { public_key = public_key; private_key = seed32 })

-- `x25519_importPrivateKey`; `x25519_generateKeyPair` calls it with 32 random bytes.
unfoldable pub x25519_import_private_key : Bytes → Result KeyPair
unfolding or_throw
x25519_import_private_key seed32 = do
  throw_if (not (length seed32 == 32)) invalid_seed
  public_key ← or_throw (x25519_base seed32)
  ok (record { public_key = public_key; private_key = seed32 })

-- "NZ-CRYPTO-01/deriveSessionKey" in ASCII.
abbrev pub session_info : Bytes
session_info =
    78 ∷ 90 ∷ 45 ∷ 67 ∷ 82 ∷ 89 ∷ 80 ∷ 84 ∷ 79 ∷ 45 ∷ 48 ∷ 49 ∷ 47 ∷ 100 ∷ 101 ∷ 114 ∷ 105 ∷ 118
    ∷ 101 ∷ 83 ∷ 101 ∷ 115 ∷ 115 ∷ 105 ∷ 111 ∷ 110 ∷ 75 ∷ 101 ∷ 121 ∷ []

-- `deriveSessionKey`, with the context in bytes.
unfoldable pub derive_session_key :
    Hashes → Bytes → Bytes → Bytes → Option String → ℕ → Result Bytes
unfolding or_throw
derive_session_key crypto our_priv_x25519 their_pub_x25519 context hash key_length = do
  shared_secret ← or_throw (x25519 our_priv_x25519 their_pub_x25519)
  salt ← blake2b crypto context 32 none
  hkdf crypto hash salt shared_secret session_info key_length
