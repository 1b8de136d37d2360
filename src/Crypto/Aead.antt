-- ===== src/Crypto/Aead.antt =====
-- lib/chacha20poly1305.js: the length checks around ChaCha20-Poly1305.
use new_zone_reference.Prelude.{◌≡◌, not, Option, none, some, [], ◌∷◌, arith, ◌==◌, length}
use new_zone_reference.Crypto.Bytes.{Bytes}
use new_zone_reference.Crypto.Result.{
  Result, ok, ◌>>◌, throw_if, invalid_key, invalid_nonce, invalid_tag,
}

pub record Sealed : Type 0 where
  pub ciphertext : Bytes
  pub tag : Bytes

-- The cipher of node:crypto, for a key, a nonce, the additional data if any are set, and a text.
-- Opening what was sealed with the same inputs gives the text; a tag has 16 bytes.
pub record Cipher : Type 0 where
  pub seal : Bytes → Bytes → Option Bytes → Bytes → Sealed
  pub unseal : Bytes → Bytes → Option Bytes → Sealed → Option Bytes
  pub unseal-seal :
      (key nonce : Bytes) (aad : Option Bytes) (text : Bytes)
      → unseal key nonce aad (seal key nonce aad text) ≡ some text
  pub length-tag :
      (key nonce : Bytes) (aad : Option Bytes) (text : Bytes)
      → length (seal key nonce aad text).tag ≡ 16

-- `if (a.length > 0) cipher.setAAD(a, ...)`
unfoldable pub set_aad : Bytes → Option Bytes
set_aad [] = none
set_aad (b ∷ a) = some (b ∷ a)

module _ (cipher : Cipher) where
  open cipher use {seal, unseal}

  -- `encrypt`
  unfoldable pub encrypt : Bytes → Bytes → Bytes → Bytes → Result Sealed
  encrypt key nonce plaintext aad = do
    throw_if (not (length key == 32)) invalid_key
    throw_if (not (length nonce == 12)) invalid_nonce
    ok (seal key nonce (set_aad aad) plaintext)

  -- `decrypt`; `none` is the `null` of a failed authentication.
  unfoldable pub decrypt : Bytes → Bytes → Sealed → Bytes → Result (Option Bytes)
  decrypt key nonce sealed aad = do
    throw_if (not (length key == 32)) invalid_key
    throw_if (not (length nonce == 12)) invalid_nonce
    throw_if (not (length sealed.tag == 16)) invalid_tag
    ok (unseal key nonce (set_aad aad) sealed)

  -- What `encrypt` returns, `decrypt` opens with the same key, nonce and additional data.
  pub decrypt-encrypt :
      (key nonce plaintext aad : Bytes) {sealed : Sealed}
      → encrypt key nonce plaintext aad ≡ ok sealed
      → decrypt key nonce sealed aad ≡ ok (some plaintext)
  unfolding encrypt decrypt
  decrypt-encrypt key nonce plaintext aad e = ground (
    arith,
    cipher.unseal-seal key nonce (set_aad aad) plaintext,
    cipher.length-tag key nonce (set_aad aad) plaintext,
  )
