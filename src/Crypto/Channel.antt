-- ===== src/Crypto/Channel.antt =====
-- lib/secureChannel.js: the bidirectional channel with epochs and counters.
pub mod Nonces
pub mod Contexts
pub mod Peers
use new_zone_reference.Prelude.{
  ℕ, zero, suc, ◌+◌, ◌-◌, ◌*◌, ◌/◌, ◌%◌, ◌^◌, ◌≤◌, ◌<◌, String, ◌≡◌, refl, sym, ap, ◌∙◌, ◌≢◌, ◌↔◌,
  ◌⊎◌, inl, inr, Bool, true, false, not, ◌&&◌, ◌||◌, Option, none, some, List, [], ◌∷◌, ◌++◌, map,
  append_assoc, append-nil, arith, str_eq, eq_iff, eq_refl, ltb, leb, ◌==◌, if◌then◌else◌, ltb→lt,
  lt→ltb, leb→le, ==_iff, Bool-cases, Option-cases, List-cases, length, take, drop, replicate,
  filter, length-append, length-take, length-drop, length-replicate, length-filter, length-map,
  take-append-drop, take-append, drop-append, take_of_le, drop-append_of_le, drop-drop, drop-nil,
  last, length-last, last_of_le, last-last, push_bounded, length-push_bounded, push_bounded-last,
  push_all, push_all-last,
}
use new_zone_reference.Crypto.Bytes.{Bytes}
use new_zone_reference.Crypto.Result.{
  Result, ok, err, ◌>>=◌, ◌>>◌, throw_if, invalid_nonce_base, base_context_required,
}
use new_zone_reference.Crypto.Hkdf.{Hashes}
use new_zone_reference.Crypto.SessionKeys.{SessionKeys, derive_session_keys}
use new_zone_reference.Crypto.Aead.{Cipher, Sealed, encrypt, decrypt}

pub data Role : Type 0 where
  alice bob : Role

pub record Channel : Type 0 where
  pub hash : Option String
  pub key_length : ℕ
  pub role : Role
  pub base_context : Bytes
  pub shared_secret : Bytes
  pub epoch : ℕ
  pub send_counter : ℕ
  pub recv_counter : ℕ
  pub send_key : Bytes
  pub send_nonce_base : Bytes
  pub recv_key : Bytes
  pub recv_nonce_base : Bytes
  pub session_id_send : Bytes
  pub session_id_recv : Bytes

-- The byte `counter >>> (8 * k)`, where the shift reads the counter as 32 bits.
unfoldable pub counter_byte : ℕ → ℕ → ℕ
counter_byte counter k = counter % 2 ^ 32 / 2 ^ (8 * k) % 256

-- `makeNonce`
unfoldable pub make_nonce : Bytes → ℕ → Result Bytes
unfolding counter_byte
make_nonce nonce_base counter = do
  throw_if (not (length nonce_base == 12)) invalid_nonce_base
  ok (
      take 8 nonce_base
      ++ counter_byte counter 3
        ∷ counter_byte counter 2
        ∷ counter_byte counter 1
        ∷ counter_byte counter 0
        ∷ [])

-- The decimal digits of a number in ASCII, as a template string prints it.
unfoldable pub decimal_loop : ℕ → ℕ → Bytes
decimal_loop zero n = []
decimal_loop (suc fuel) n =
    let rest = decimal_loop fuel (n / 10) ++ (48 + n % 10) ∷ [] in
    if ltb n 10 then (48 + n) ∷ [] else rest

unfoldable pub decimal : ℕ → Bytes
unfolding decimal_loop
decimal n = decimal_loop (suc n) n

-- The two directions, "alice->bob" and "bob->alice".
pub data Direction : Type 0 where
  alice_to_bob bob_to_alice : Direction

abbrev pub direction_text : Direction → Bytes
direction_text alice_to_bob = 97 ∷ 108 ∷ 105 ∷ 99 ∷ 101 ∷ 45 ∷ 62 ∷ 98 ∷ 111 ∷ 98 ∷ []
direction_text bob_to_alice = 98 ∷ 111 ∷ 98 ∷ 45 ∷ 62 ∷ 97 ∷ 108 ∷ 105 ∷ 99 ∷ 101 ∷ []

-- "/epoch-"
abbrev pub epoch_text : Bytes
epoch_text = 47 ∷ 101 ∷ 112 ∷ 111 ∷ 99 ∷ 104 ∷ 45 ∷ []

-- The context of an epoch and a direction; 47 is the slash.
unfoldable pub epoch_context : Bytes → ℕ → Direction → Bytes
epoch_context base epoch d = base ++ (epoch_text ++ (decimal epoch ++ 47 ∷ direction_text d))

-- The assignments of `_deriveKeysForEpoch`, by the role.
unfoldable pub install : SessionKeys → SessionKeys → Channel → Channel
install ab ba c = elim c.role [
  | alice ↦ record c {
    send_key = ab.enc_key;
    send_nonce_base = ab.nonce_base;
    recv_key = ba.enc_key;
    recv_nonce_base = ba.nonce_base;
    session_id_send = ab.session_id;
    session_id_recv = ba.session_id;
  }
  | bob ↦ record c {
    send_key = ba.enc_key;
    send_nonce_base = ba.nonce_base;
    recv_key = ab.enc_key;
    recv_nonce_base = ab.nonce_base;
    session_id_send = ba.session_id;
    session_id_recv = ab.session_id;
  }
]

-- The fields that the constructor sets before it derives the keys.
unfoldable pub initial_channel : Bytes → Bytes → Role → Option String → ℕ → Channel
initial_channel shared_secret base_context role hash key_length = record {
  hash = hash;
  key_length = key_length;
  role = role;
  base_context = base_context;
  shared_secret = shared_secret;
  epoch = 0;
  send_counter = 1;
  recv_counter = 1;
  send_key = [];
  send_nonce_base = [];
  recv_key = [];
  recv_nonce_base = [];
  session_id_send = [];
  session_id_recv = [];
}

pub record Message : Type 0 where
  pub nonce : Bytes
  pub sealed : Sealed
  pub counter : ℕ
  pub epoch : ℕ

module _ (crypto : Hashes) where
  -- `_deriveKeysForEpoch`
  unfoldable pub derive_keys_for_epoch : Channel → Result Channel
  unfolding install
  derive_keys_for_epoch c = do
    ab ←
        derive_session_keys crypto c.shared_secret
          (epoch_context c.base_context c.epoch alice_to_bob) c.hash c.key_length
    ba ←
        derive_session_keys crypto c.shared_secret
          (epoch_context c.base_context c.epoch bob_to_alice) c.hash c.key_length
    ok (install ab ba c)

  -- The constructor, of a secret that is given and one of the two roles.
  unfoldable pub new_channel : Bytes → Bytes → Role → Option String → ℕ → Result Channel
  unfolding derive_keys_for_epoch initial_channel
  new_channel shared_secret base_context role hash key_length = do
    throw_if (length base_context == 0) base_context_required
    derive_keys_for_epoch (initial_channel shared_secret base_context role hash key_length)

  -- `rekey`
  unfoldable pub rekey : Channel → Result Channel
  unfolding derive_keys_for_epoch
  rekey c =
      derive_keys_for_epoch (record c { epoch = c.epoch + 1; send_counter = 1; recv_counter = 1 })

module _ (cipher : Cipher) where
  -- `encryptToPeer`: the counter has moved on also where the encryption throws.
  unfoldable pub encrypt_to_peer : Bytes → Bytes → Channel → Channel × Result Message
  encrypt_to_peer plaintext aad c =
      let counter = c.send_counter in
      (
        record c { send_counter = counter + 1 },
        (do
          nonce ← make_nonce c.send_nonce_base counter
          sealed ← encrypt cipher c.send_key nonce plaintext aad
          ok (record { nonce = nonce; sealed = sealed; counter = counter; epoch = c.epoch })),
      )

  unfoldable pub count_received : Result (Option Bytes) → Channel → Channel
  count_received (ok (some pt)) c = record c { recv_counter = c.recv_counter + 1 }
  count_received r c = c

  -- `decryptFromPeer`
  unfoldable pub decrypt_from_peer :
      Bytes → Sealed → Bytes → Channel → Channel × Result (Option Bytes)
  unfolding count_received
  decrypt_from_peer nonce sealed aad c =
      let r = decrypt cipher c.recv_key nonce sealed aad in (count_received r c, r)
