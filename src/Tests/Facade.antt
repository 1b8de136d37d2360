-- ===== src/Tests/Facade.antt =====
-- The theorems about the facade, the inverse and the gateway at concrete inputs.
use new_zone_reference.Prelude.{
  true, false, ◌-◌, ◌%◌, ◌^◌, ◌≡◌, refl, sym, ap, ◌≢◌, Option, none, some, [], ◌∷◌, arith, length,
  replicate,
}
use new_zone_reference.Prelude.Int.{ℤ, pos}
use new_zone_reference.Js.{Value, num, str, obj, field, end, prop, truthy}
use new_zone_reference.Tests.Base64.{to_base64, from_base64, to_base64_not_empty}
use new_zone_reference.Crypto.Bytes.{Bytes}
use new_zone_reference.Crypto.Result.{ok, ok_inj}
use new_zone_reference.Crypto.X25519.{prime, mul, inv, inv_loop, mod_prime}
use new_zone_reference.Crypto.X25519.Inverse.{inv-power}
use new_zone_reference.Crypto.Aead.{encrypt, Cipher, Sealed}
use new_zone_reference.Crypto.Ed25519.{Signer, ed25519_verify, ed25519_sign, ed25519_get_public_key}
use new_zone_reference.Crypto.Facade.{Tools, sha256_hex_of, without}
use new_zone_reference.Crypto.Facade.Signed.{
  accepted, is_same_text, is_replay, exceeds, skew_sec, signed_bytes, fields_of, signed_packet,
  build_signed_packet, verify_signed_packet, auth_fields,
}
use new_zone_reference.Crypto.Facade.Signed.Acceptance.{
  verify_signed_packet-accepted, verify_signed_packet-build_signed_packet,
}
use new_zone_reference.Crypto.Facade.Encrypted.{
  encrypt_packet, decrypt_packet, encrypted_packet, decrypt_packet-encrypt_packet, route_text,
}
use new_zone_reference.Services.Http.{json}
use new_zone_reference.Services.Gateway.Server.{post_verify}
use new_zone_reference.Services.Gateway.Server.Firewall.{status, post_verify-refused}

abbrev number_of : Value → Option ℤ
number_of (num n) = some n
number_of v = none

abbrev body : Value
body = obj (field "x" (num (pos 1)) end)

-- All values have one text, and that text is the one of the body.
abbrev pub tools : Tools
tools = record {
  json = λ v. "body";
  parse = λ s. some body;
  sha256_hex = λ s. "hash";
  encode = λ s. 1 ∷ 2 ∷ [];
  decode = λ bs. "text";
  u8_to_b64 = to_base64;
  b64_to_u8 = from_base64;
  to_number = number_of;
  to_text = λ v. "node";
}

abbrev pub signer : Signer
signer = record {
  sign = λ key text. replicate 64 7;
  verify = λ key text sig. true;
  raw_public = λ key. replicate 32 9;
  length-sign = λ key text. refl;
  length-raw_public = λ key. refl;
  verify-sign = λ key text. refl;
}

abbrev pub cipher : Cipher
cipher = record {
  seal = λ key nonce aad text. record { ciphertext = text; tag = replicate 16 0 };
  unseal = λ key nonce aad sealed. some sealed.ciphertext;
  unseal-seal = λ key nonce aad text. refl;
  length-tag = λ key nonce aad text. refl;
}

abbrev seed : Bytes
seed = replicate 32 1

abbrev packet : Value
packet = signed_packet (str "n1") 5 "nonce" "hash" (to_base64 (replicate 64 7)) body

abbrev lookup : Value → Option Bytes
lookup v = some (replicate 32 9)

-- The signature that the seed makes is 64 times the byte 7, which base64 gives back.
seed_signature :
    (sig : Bytes)
    → ed25519_sign signer
        (signed_bytes tools (auth_fields (str "n1") 5 "nonce" (sha256_hex_of tools body) end))
        seed
      ≡ ok sig
    → from_base64 (str (to_base64 sig)) ≡ some sig
unfolding ed25519_sign
seed_signature sig h = let e : replicate 64 7 ≡ sig = ok_inj h in rw (← e) refl

verify_signed_packet-build_signed_packet_example :
    verify_signed_packet tools signer 7 lookup 300 none packet ≡ accepted (str "n1")
unfolding sha256_hex_of is_replay ed25519_get_public_key build_signed_packet ed25519_sign truthy
verify_signed_packet-build_signed_packet_example =
    verify_signed_packet-build_signed_packet tools signer (str "n1") body packet seed
      (replicate 32 9) 4 7 300 "nonce" lookup none seed_signature to_base64_not_empty refl refl refl
      refl refl refl refl refl (omega arith) refl

verify_signed_packet-accepted_example :
    (pub_key : Bytes) × (sig_bytes : Bytes) × (is_same_text
        (sha256_hex_of tools (prop "body" packet))
        (prop "body_hash" (prop "auth" packet))
      ≡ true)
    × (is_replay none (prop "node_id" (prop "auth" packet)) (prop "nonce" (prop "auth" packet))
        ≡ false)
    × (exceeds (skew_sec tools 7 (prop "timestamp" (prop "auth" packet))) 300 ≡ false)
    × (lookup (prop "node_id" (prop "auth" packet)) ≡ some pub_key)
    × (tools.b64_to_u8 (prop "signature" (prop "auth" packet)) ≡ some sig_bytes)
    × (ed25519_verify signer
          (signed_bytes tools (without "signature" (fields_of (prop "auth" packet))))
          sig_bytes
          pub_key
        ≡ true)
    × (prop "node_id" (prop "auth" packet) ≡ str "n1")
verify_signed_packet-accepted_example =
    verify_signed_packet-accepted tools signer 7 lookup 300 none packet (str "n1")
      verify_signed_packet-build_signed_packet_example

abbrev made : Value
made =
    encrypted_packet (str "a") (str "b") (to_base64 (replicate 12 3)) (to_base64 (replicate 16 0))
      (to_base64 (1 ∷ 2 ∷ [])) "context"

-- The tag of 16 zeros and the text that stands for its ciphertext, which base64 gives back.
sealed_texts :
    (sealed : Sealed)
    → encrypt cipher seed (replicate 12 3) (1 ∷ 2 ∷ []) (route_text tools (str "a") (str "b"))
      ≡ ok sealed
    → (from_base64 (str (to_base64 sealed.tag)) ≡ some sealed.tag)
      × (from_base64 (str (to_base64 sealed.ciphertext)) ≡ some sealed.ciphertext)
unfolding encrypt
sealed_texts sealed h =
    let e : record { ciphertext = 1 ∷ 2 ∷ []; tag = replicate 16 0 } ≡ sealed = ok_inj h in
    rw (← e) (refl, refl)

decrypt_packet-encrypt_packet_example : decrypt_packet tools cipher made seed ≡ ok body
unfolding encrypt_packet encrypt
decrypt_packet-encrypt_packet_example =
    decrypt_packet-encrypt_packet tools cipher body seed (str "a") (str "b") "context"
      (replicate 12 3) made refl sealed_texts refl refl

inv-power_example :
    (inv_loop 300 1 (mod_prime (pos 5)) (prime - 2) ≡ inv 5)
    × (mul 5 (inv 5) ≡ 5 ^ (prime - 1) % prime)
inv-power_example = inv-power 5 300 (omega arith)

-- The key of every node is a DER of 44 bytes.
abbrev pub der_of : Value → Option Bytes
der_of v = some (replicate 44 9)

length-der_of : (node : Value) (key : Bytes) → der_of node ≡ some key → length key ≡ 44
length-der_of node key h = ap (λ o. elim o [ none ↦ 44 | some k ↦ length k ]) (sym h)

post_verify-refused_example : status (post_verify tools signer cipher der_of 7 (json packet)) ≢ 200
post_verify-refused_example =
    post_verify-refused tools signer cipher der_of 7 (json packet) length-der_of
