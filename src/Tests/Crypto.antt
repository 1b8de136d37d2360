-- ===== src/Tests/Crypto.antt =====
-- The theorems about the cryptographic library at concrete inputs.
use new_zone_reference.Prelude.{
  ◌%◌, ◌^◌, ◌*◌, ℕ, zero, suc, ◌+◌, ◌-◌, ◌/◌, ◌<◌, ◌≡◌, refl, Option, none, some, [], ◌∷◌, ◌++◌,
  arith, length, take, replicate, length-append, length-take, length-replicate,
}
use new_zone_reference.Crypto.Bytes.{Bytes, AreBytes, bytes_to_bigint_le}
use new_zone_reference.Crypto.Result.{Result, ok, err}
use new_zone_reference.Crypto.X25519.{
  decode_u_coordinate_bytes, x25519, clamp_scalar_bytes, prime, montgomery_ladder, start,
}
use new_zone_reference.Crypto.X25519.Ladder.{reference, montgomery_ladder-reference}
use new_zone_reference.Crypto.X25519.Scalars.{x25519-canonical}
use new_zone_reference.Crypto.Hkdf.{blake2b, hkdf, Hashes, hkdf_expand, hmac_of, hash_len}
use new_zone_reference.Crypto.Hkdf.Blocks.{blocks}
use new_zone_reference.Crypto.Hkdf.Expand.{hkdf_expand-blocks}
use new_zone_reference.Crypto.SessionKeys.{derive_session_keys}
use new_zone_reference.Crypto.Aead.{Cipher, encrypt}
use new_zone_reference.Crypto.Channel.{
  initial_channel, Channel, Message, alice, bob, alice_to_bob, make_nonce, new_channel, rekey,
  encrypt_to_peer, decrypt_from_peer,
}
use new_zone_reference.Crypto.Channel.Nonces.{send_all-AreFresh, AreFresh, send_all}
use new_zone_reference.Crypto.Channel.Contexts.{epoch_context-injective}
use new_zone_reference.Crypto.Channel.Peers.{
  IsPaired, IsNextEpoch, new_channel-IsPaired, rekey-IsPaired, decrypt_from_peer-encrypt_to_peer,
}

abbrev ones : Bytes
ones = replicate 32 1

montgomery_ladder-reference_example :
    montgomery_ladder 5 9
    ≡ (let p = reference 5 9 255 (start 9) in p.x2 * (p.z2 ^ (prime - 2) % prime) % prime)
montgomery_ladder-reference_example = montgomery_ladder-reference 5 9

ones-AreBytes : (n : ℕ) → AreBytes (replicate n 1)
ones-AreBytes zero = tt
ones-AreBytes (suc n) = (omega arith, ones-AreBytes n)

-- Digests that stand for those of node:crypto: the first 64 bytes of the inputs, padded.
abbrev digest : Bytes → Bytes → Bytes
digest key text = take 64 (key ++ text ++ replicate 64 0)

length-digest : (key text : Bytes) → length (digest key text) ≡ 64
length-digest key text = ground (
  arith,
  length-take 64 (key ++ text ++ replicate 64 0),
  length-append key text,
  length-append (key ++ text) (replicate 64 0),
  length-replicate {A = ℕ} 64 0,
)

abbrev key_of : Option Bytes → Bytes
key_of none = []
key_of (some key) = key

abbrev hashes : Hashes
hashes = record {
  hmac_sha512 = digest;
  blake2b512 = λ key text. digest (key_of key) text;
  lower = λ s. s;
  length-hmac_sha512 = length-digest;
  length-blake2b512 = λ key text. length-digest (key_of key) text;
}

-- A cipher that seals a text as it is.
abbrev open_cipher : Cipher
open_cipher = record {
  seal = λ key nonce aad text. record { ciphertext = text; tag = replicate 16 0 };
  unseal = λ key nonce aad sealed. some sealed.ciphertext;
  unseal-seal = λ key nonce aad text. refl;
  length-tag = λ key nonce aad text. refl;
}

hkdf_expand-blocks_example :
    (h : Bytes → Bytes) × ((text : Bytes) → ok (digest ones text) ≡ ok (h text))
    × ((text : Bytes) → length (h text) ≡ hash_len)
    × (hkdf_expand hashes none ones [] 70
        ≡ ok (take 70 (blocks h [] ((70 + hash_len - 1) / hash_len) 1 [])))
unfolding hmac_of
hkdf_expand-blocks_example =
    hkdf_expand-blocks hashes none ones [] 70 (λ key text. ok (digest key text)) refl (omega arith)
      (omega arith)

epoch_context-injective_example : (◌≡◌ {A = ℕ} 3 3) × (alice_to_bob ≡ alice_to_bob)
epoch_context-injective_example =
    epoch_context-injective (1 ∷ []) 3 3 alice_to_bob alice_to_bob refl

-- What a successful computation returns.
abbrev value_of : Option Bytes → Bytes
value_of none = []
value_of (some bytes) = bytes

abbrev value_or {ℓ} : {A : Type ℓ} → A → Result A → A
value_or d (ok a) = a
value_or d (err e) = d

abbrev blank : Channel
blank = initial_channel [] [] alice none 32

abbrev alice_channel : Channel
alice_channel = value_or blank (new_channel hashes ones (9 ∷ []) alice none 32)

abbrev bob_channel : Channel
bob_channel = value_or blank (new_channel hashes ones (9 ∷ []) bob none 32)

new_channel-IsPaired_example : IsPaired alice_channel bob_channel
unfolding new_channel derive_session_keys blake2b hkdf
new_channel-IsPaired_example =
    new_channel-IsPaired hashes ones (9 ∷ []) none 32 alice_channel bob_channel refl refl

rekey-IsPaired_example :
    IsPaired
      (value_or blank (rekey hashes alice_channel))
      (value_or blank (rekey hashes bob_channel))
    × IsNextEpoch alice_channel (value_or blank (rekey hashes alice_channel))
    × IsNextEpoch bob_channel (value_or blank (rekey hashes bob_channel))
unfolding new_channel rekey derive_session_keys blake2b hkdf
rekey-IsPaired_example =
    rekey-IsPaired hashes alice_channel bob_channel (value_or blank (rekey hashes alice_channel))
      (value_or blank (rekey hashes bob_channel))
      (new_channel-IsPaired hashes ones (9 ∷ []) none 32 alice_channel bob_channel refl refl) refl
      refl

-- Two channels that are paired.
abbrev near : Channel
near = record {
  hash = none;
  key_length = 32;
  role = alice;
  base_context = 9 ∷ [];
  shared_secret = ones;
  epoch = 0;
  send_counter = 1;
  recv_counter = 1;
  send_key = replicate 32 2;
  send_nonce_base = replicate 12 3;
  recv_key = replicate 32 4;
  recv_nonce_base = replicate 12 5;
  session_id_send = 6 ∷ [];
  session_id_recv = 7 ∷ [];
}

abbrev far : Channel
far = record near {
  role = bob;
  send_key = replicate 32 4;
  send_nonce_base = replicate 12 5;
  recv_key = replicate 32 2;
  recv_nonce_base = replicate 12 3;
  session_id_send = 7 ∷ [];
  session_id_recv = 6 ∷ [];
}

near-far : IsPaired near far
near-far = record {
  set_up = record {
    role_a = refl;
    role_b = refl;
    hash = refl;
    key_length = refl;
    base_context = refl;
    shared_secret = refl;
    epoch = refl;
  };
  a_to_b_key = refl;
  a_to_b_nonce_base = refl;
  a_to_b_session = refl;
  b_to_a_key = refl;
  b_to_a_nonce_base = refl;
  b_to_a_session = refl;
}

abbrev message_of : Bytes → Message
message_of nonce = record {
  nonce = nonce;
  sealed = record { ciphertext = 104 ∷ 105 ∷ []; tag = replicate 16 0 };
  counter = 1;
  epoch = 0;
}

abbrev near_nonce : Bytes
near_nonce = replicate 8 3 ++ 0 ∷ 0 ∷ 0 ∷ 1 ∷ []

abbrev far_nonce : Bytes
far_nonce = replicate 8 5 ++ 0 ∷ 0 ∷ 0 ∷ 1 ∷ []

decrypt_from_peer-encrypt_to_peer_example :
    (decrypt_from_peer open_cipher near_nonce (message_of near_nonce).sealed [] far
      ≡ (record far { recv_counter = 2 }, ok (some (104 ∷ 105 ∷ []))))
    × (decrypt_from_peer open_cipher far_nonce (message_of far_nonce).sealed [] near
        ≡ (record near { recv_counter = 2 }, ok (some (104 ∷ 105 ∷ []))))
unfolding encrypt_to_peer make_nonce encrypt
decrypt_from_peer-encrypt_to_peer_example =
    decrypt_from_peer-encrypt_to_peer open_cipher (104 ∷ 105 ∷ []) [] near far
      (message_of near_nonce) (message_of far_nonce) near-far refl refl

send_all-AreFresh_example : AreFresh (send_all open_cipher (ones ∷ ones ∷ []) near)
send_all-AreFresh_example = send_all-AreFresh open_cipher (ones ∷ ones ∷ []) near refl (omega arith)

abbrev public_key : Bytes
public_key = value_of (x25519 ones ones)

x25519-canonical_example :
    (length public_key ≡ 32) × AreBytes public_key × (bytes_to_bigint_le public_key < prime)
unfolding x25519 clamp_scalar_bytes decode_u_coordinate_bytes
x25519-canonical_example = x25519-canonical ones ones public_key refl
