-- ===== src/Crypto/Facade/Encrypted.antt =====
-- lib/nz-crypto.js: packets under ChaCha20-Poly1305.
use Prim.Native.String as Text
use new_zone_reference.Prelude.{String, ◌≡◌, refl, Bool, false, not, Option, none, some, str_eq}
use new_zone_reference.Js.{Value, str, obj, end, field, prop, find_field}
use new_zone_reference.Crypto.Bytes.{Bytes}
use new_zone_reference.Crypto.Result.{
  Result, ok, err, ◌>>=◌, ◌>>◌, throw_if, unsupported_version, unsupported_cipher,
  authentication_failed, invalid_json, >>=-eq-ok, ok_inj,
}
use new_zone_reference.Crypto.Aead.{Cipher, Sealed, encrypt, decrypt, decrypt-encrypt}
use new_zone_reference.Crypto.Facade.{Tools}

-- The additional data, `${sender}->${receiver}`.
unfoldable pub route_text : Tools → Value → Value → Bytes
route_text tools sender receiver =
    tools.encode (Text.◌++◌ (tools.to_text sender) (Text.◌++◌ "->" (tools.to_text receiver)))

abbrev pub encrypted_packet : Value → Value → String → String → String → String → Value
encrypted_packet sender receiver nonce tag ciphertext context = obj (
    field "version" (str "nz-crypto-01") (
      field "cipher" (str "chacha20-poly1305") (
        field "sender_node_id" sender (
          field "receiver_node_id" receiver (
            field "nonce" (str nonce) (
              field "tag" (str tag)
                (field "ciphertext" (str ciphertext) (field "context" (str context) end))))))))

-- `encryptPacket`, with the random nonce.
unfoldable pub encrypt_packet :
    Tools → Cipher → Value → Bytes → Value → Value → String → Bytes → Result Value
unfolding route_text
encrypt_packet tools cipher packet session_key sender receiver base_context nonce = do
  sealed ←
      encrypt cipher session_key nonce (tools.encode (tools.json packet))
        (route_text tools sender receiver)
  ok (
      encrypted_packet sender receiver (tools.u8_to_b64 nonce) (tools.u8_to_b64 sealed.tag)
        (tools.u8_to_b64 sealed.ciphertext) base_context)

unfoldable pub is_text : String → Value → Bool
is_text s (str t) = str_eq t s
is_text s v = false

-- An error of the language, as a result.
unfoldable pub or_error {ℓ} : {A : Type ℓ} → Option A → Result A
or_error none = err invalid_json
or_error (some a) = ok a

unfoldable pub or_unauthentic : Option Bytes → Result Bytes
or_unauthentic none = err authentication_failed
or_unauthentic (some plaintext) = ok plaintext

-- `decryptPacket`
unfoldable pub decrypt_packet : Tools → Cipher → Value → Bytes → Result Value
unfolding route_text is_text or_error or_unauthentic
decrypt_packet tools cipher packet session_key = do
  throw_if (not (is_text "nz-crypto-01" (prop "version" packet))) unsupported_version
  throw_if (not (is_text "chacha20-poly1305" (prop "cipher" packet))) unsupported_cipher
  nonce ← or_error (tools.b64_to_u8 (prop "nonce" packet))
  tag ← or_error (tools.b64_to_u8 (prop "tag" packet))
  ciphertext ← or_error (tools.b64_to_u8 (prop "ciphertext" packet))
  opened ←
      decrypt cipher session_key nonce (record { ciphertext = ciphertext; tag = tag })
        (route_text tools (prop "sender_node_id" packet) (prop "receiver_node_id" packet))
  plaintext ← or_unauthentic opened
  or_error (tools.parse (tools.decode plaintext))

-- What `encryptPacket` has made of a packet, `decryptPacket` opens with the same session key to the
-- packet, if base64, the encoding of texts and JSON give back the three byte strings, the text and the
-- packet.
pub decrypt_packet-encrypt_packet :
    (tools : Tools) (cipher : Cipher) (packet : Value) (session_key : Bytes)
    (sender receiver : Value) (base_context : String) (nonce : Bytes) (made : Value)
    → tools.b64_to_u8 (str (tools.u8_to_b64 nonce)) ≡ some nonce
    → ((sealed : Sealed)
        → encrypt cipher session_key nonce
            (tools.encode (tools.json packet))
            (route_text tools sender receiver)
          ≡ ok sealed
        → (tools.b64_to_u8 (str (tools.u8_to_b64 sealed.tag)) ≡ some sealed.tag)
          × (tools.b64_to_u8 (str (tools.u8_to_b64 sealed.ciphertext)) ≡ some sealed.ciphertext))
    → tools.parse (tools.decode (tools.encode (tools.json packet))) ≡ some packet
    → encrypt_packet tools cipher packet session_key sender receiver base_context nonce ≡ ok made
    → decrypt_packet tools cipher made session_key ≡ ok packet
unfolding encrypt_packet decrypt_packet prop find_field is_text
decrypt_packet-encrypt_packet tools cipher packet session_key sender receiver base_context nonce
      made nonce_back sealed_back written sealed_ok =
    let (sealed, encrypted, finished) =
      >>=-eq-ok (encrypt cipher session_key nonce _ _) _ sealed_ok in
    let opened =
      decrypt-encrypt cipher session_key nonce (tools.encode (tools.json packet))
        (route_text tools sender receiver) {sealed = sealed} encrypted in
    let (tag_back, ciphertext_back) = sealed_back sealed encrypted in
    rw (← ok_inj finished, nonce_back, tag_back, ciphertext_back, opened, written) refl
