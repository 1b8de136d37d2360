-- ===== src/Crypto/Adapter.antt =====
-- lib/nz-crypto-adapter-pure.js: Ed25519 and X25519 behind one interface. The random seeds are
-- arguments.
use new_zone_reference.Prelude.{Bool, not, ◌==◌, length}
use new_zone_reference.Crypto.Bytes.{Bytes}
use new_zone_reference.Crypto.Result.{Result, ok, ◌>>=◌, ◌>>◌, throw_if, invalid_seed}
use new_zone_reference.Crypto.Ed25519.{Signer, ed25519_get_public_key, ed25519_sign, ed25519_verify}
use new_zone_reference.Crypto.X25519.{x25519, x25519_base}
use new_zone_reference.Crypto.Handshake.{or_throw}
use new_zone_reference.Crypto.Facade.Keys.{KeyPair}

-- `importPublicKey` of both adapters.
unfoldable pub import_public_key : Bytes → Result Bytes
import_public_key pub32 = do throw_if (not (length pub32 == 32)) invalid_seed; ok pub32

module _ (signer : Signer) where
  -- `ed25519Adapter.generateKeyPair`
  unfoldable pub ed25519_generate_key_pair : Bytes → Result KeyPair
  ed25519_generate_key_pair random_seed = do
    public_key ← ed25519_get_public_key signer random_seed
    ok (record { public_key = public_key; private_key = random_seed })

  -- `ed25519Adapter.importPrivateKey`
  unfoldable pub ed25519_import_private_key : Bytes → Result KeyPair
  ed25519_import_private_key seed32 = do
    throw_if (not (length seed32 == 32)) invalid_seed
    public_key ← ed25519_get_public_key signer seed32
    ok (record { public_key = public_key; private_key = seed32 })

  -- `ed25519Adapter.sign`
  unfoldable pub sign : Bytes → Bytes → Result Bytes
  sign message private_key = ed25519_sign signer message private_key

  -- `ed25519Adapter.verify`
  unfoldable pub verify : Bytes → Bytes → Bytes → Bool
  verify signature message public_key = ed25519_verify signer message signature public_key

-- `x25519Adapter.generateKeyPair`
unfoldable pub x25519_generate_key_pair : Bytes → Result KeyPair
unfolding or_throw
x25519_generate_key_pair random_scalar = do
  public_key ← or_throw (x25519_base random_scalar)
  ok (record { public_key = public_key; private_key = random_scalar })

-- `x25519Adapter.importPrivateKey`
unfoldable pub x25519_import_private_key : Bytes → Result KeyPair
unfolding or_throw
x25519_import_private_key seed32 = do
  throw_if (not (length seed32 == 32)) invalid_seed
  public_key ← or_throw (x25519_base seed32)
  ok (record { public_key = public_key; private_key = seed32 })

-- `x25519Adapter.deriveSharedSecret`
unfoldable pub derive_shared_secret : Bytes → Bytes → Result Bytes
unfolding or_throw
derive_shared_secret private_key public_key = or_throw (x25519 private_key public_key)
