-- ===== src/Crypto/Channel/Peers.antt =====
-- lib/secureChannel.js: two channels of one secret and context.
use new_zone_reference.Prelude.{
  ℕ, ◌+◌, String, ◌≡◌, refl, sym, ap, ◌∙◌, Option, some, arith, ◌==◌, length,
}
use new_zone_reference.Crypto.Bytes.{Bytes}
use new_zone_reference.Crypto.Result.{
  Result, ok, throw_if, >>=-eq-ok, ok_inj, base_context_required,
}
use new_zone_reference.Crypto.Hkdf.{Hashes}
use new_zone_reference.Crypto.SessionKeys.{SessionKeys, derive_session_keys}
use new_zone_reference.Crypto.Aead.{Cipher, encrypt, decrypt-encrypt}
use new_zone_reference.Crypto.Channel.{
  initial_channel, Channel, Message, alice, bob, Direction, alice_to_bob, bob_to_alice,
  epoch_context, install, derive_keys_for_epoch, new_channel, rekey, make_nonce, encrypt_to_peer,
  decrypt_from_peer, count_received,
}

-- Alice's channel and Bob's, in the same epoch of the same secret.
pub record IsSetUp (a b : Channel) : Type 0 where
  pub role_a : a.role ≡ alice
  pub role_b : b.role ≡ bob
  pub hash : a.hash ≡ b.hash
  pub key_length : a.key_length ≡ b.key_length
  pub base_context : a.base_context ≡ b.base_context
  pub shared_secret : a.shared_secret ≡ b.shared_secret
  pub epoch : a.epoch ≡ b.epoch

-- Each sends with what the other one receives with.
pub record IsPaired (a b : Channel) : Type 0 where
  pub set_up : IsSetUp a b
  pub a_to_b_key : a.send_key ≡ b.recv_key
  pub a_to_b_nonce_base : a.send_nonce_base ≡ b.recv_nonce_base
  pub a_to_b_session : a.session_id_send ≡ b.session_id_recv
  pub b_to_a_key : b.send_key ≡ a.recv_key
  pub b_to_a_nonce_base : b.send_nonce_base ≡ a.recv_nonce_base
  pub b_to_a_session : b.session_id_send ≡ a.session_id_recv

install-IsPaired :
    (ab ba : SessionKeys) (a b : Channel)
    → IsSetUp a b
    → IsPaired (install ab ba a) (install ab ba b)
unfolding install
install-IsPaired ab ba a b s = ground arith

-- What the derivation of keys leaves as it is.
record KeepsState (c c' : Channel) : Type 0 where
  epoch : c'.epoch ≡ c.epoch
  send_counter : c'.send_counter ≡ c.send_counter
  recv_counter : c'.recv_counter ≡ c.recv_counter

-- The next epoch of a channel, before any message.
pub record IsNextEpoch (c c' : Channel) : Type 0 where
  pub epoch : c'.epoch ≡ c.epoch + 1
  pub send_counter : c'.send_counter ≡ 1
  pub recv_counter : c'.recv_counter ≡ 1

install-KeepsState : (ab ba : SessionKeys) (c : Channel) → KeepsState c (install ab ba c)
unfolding install
install-KeepsState ab ba c = ground arith

module _ (crypto : Hashes) where
  abbrev keys_of : Channel → Direction → Result SessionKeys
  keys_of c d =
      derive_session_keys crypto c.shared_secret (epoch_context c.base_context c.epoch d) c.hash
        c.key_length

  keys_of-same : (a b : Channel) (d : Direction) → IsSetUp a b → keys_of a d ≡ keys_of b d
  keys_of-same a b d s = cc

  derive-IsPaired :
      (a b : Channel) {a' b' : Channel}
      → IsSetUp a b
      → derive_keys_for_epoch crypto a ≡ ok a'
      → derive_keys_for_epoch crypto b ≡ ok b'
      → IsPaired a' b'
  unfolding derive_keys_for_epoch
  derive-IsPaired a b s ea eb =
      let (ab, e1, ea1) = >>=-eq-ok (keys_of a alice_to_bob) _ ea in
      let (ba, e2, ea2) = >>=-eq-ok (keys_of a bob_to_alice) _ ea1 in
      let (ab', e3, eb1) = >>=-eq-ok (keys_of b alice_to_bob) _ eb in
      let (ba', e4, eb2) = >>=-eq-ok (keys_of b bob_to_alice) _ eb1 in
      let same_ab : ab ≡ ab' = ok_inj (sym e1 ∙ keys_of-same a b alice_to_bob s ∙ e3) in
      let same_ba : ba ≡ ba' = ok_inj (sym e2 ∙ keys_of-same a b bob_to_alice s ∙ e4) in
      rw (← ok_inj ea2, ← ok_inj eb2, ← same_ab, ← same_ba) (install-IsPaired ab ba a b s)

  -- Two channels that are made from the same secret, context, hash and key length, one for each role,
  -- are paired: each sends with the key, the nonce base and the session that the other receives with.
  pub new_channel-IsPaired :
      (secret context : Bytes) (hash : Option String) (key_length : ℕ) (a b : Channel)
      → new_channel crypto secret context alice hash key_length ≡ ok a
      → new_channel crypto secret context bob hash key_length ≡ ok b
      → IsPaired a b
  unfolding new_channel
  new_channel-IsPaired secret context hash key_length a b ea eb =
      let (u, checked, ea') =
        >>=-eq-ok (throw_if (length context == 0) base_context_required) _ ea in
      let (v, checked', eb') =
        >>=-eq-ok (throw_if (length context == 0) base_context_required) _ eb in
      derive-IsPaired (initial_channel secret context alice hash key_length)
        (initial_channel secret context bob hash key_length)
        (record {
          role_a = refl;
          role_b = refl;
          hash = refl;
          key_length = refl;
          base_context = refl;
          shared_secret = refl;
          epoch = refl;
        })
        ea' eb'

  derive-KeepsState :
      (c : Channel) {c' : Channel} → derive_keys_for_epoch crypto c ≡ ok c' → KeepsState c c'
  unfolding derive_keys_for_epoch
  derive-KeepsState c e =
      let (ab, e1, e2) = >>=-eq-ok (keys_of c alice_to_bob) _ e in
      let (ba, e3, e4) = >>=-eq-ok (keys_of c bob_to_alice) _ e2 in
      rw (← ok_inj e4) (install-KeepsState ab ba c)

  rekey-IsNextEpoch : (c c' : Channel) → rekey crypto c ≡ ok c' → IsNextEpoch c c'
  unfolding rekey
  rekey-IsNextEpoch c c' e =
      let k =
        derive-KeepsState (record c { epoch = c.epoch + 1; send_counter = 1; recv_counter = 1 })
          e in
      record { epoch = k.epoch; send_counter = k.send_counter; recv_counter = k.recv_counter }

  -- Paired channels that are both rekeyed are paired again, each in its next epoch and with both of its
  -- counters at 1.
  pub rekey-IsPaired :
      (a b a' b' : Channel)
      → IsPaired a b
      → rekey crypto a ≡ ok a'
      → rekey crypto b ≡ ok b'
      → IsPaired a' b' × IsNextEpoch a a' × IsNextEpoch b b'
  unfolding rekey
  rekey-IsPaired a b a' b' p ea eb = (
    derive-IsPaired (record a { epoch = a.epoch + 1; send_counter = 1; recv_counter = 1 })
        (record b { epoch = b.epoch + 1; send_counter = 1; recv_counter = 1 })
        (record {
          role_a = p.set_up.role_a;
          role_b = p.set_up.role_b;
          hash = p.set_up.hash;
          key_length = p.set_up.key_length;
          base_context = p.set_up.base_context;
          shared_secret = p.set_up.shared_secret;
          epoch = ap (λ n. n + 1) p.set_up.epoch;
        })
        ea eb,
    rekey-IsNextEpoch a a' ea,
    rekey-IsNextEpoch b b' eb,
  )

module _ (cipher : Cipher) where
  opens :
      (text aad : Bytes) (sender receiver : Channel) (m : Message)
      → sender.send_key ≡ receiver.recv_key
      → (encrypt_to_peer cipher text aad sender).1 ≡ ok m
      → decrypt_from_peer cipher m.nonce m.sealed aad receiver
        ≡ (record receiver { recv_counter = receiver.recv_counter + 1 }, ok (some text))
  unfolding encrypt_to_peer decrypt_from_peer
  opens text aad sender receiver m same e =
      let (nonce, made, e1) =
        >>=-eq-ok (make_nonce sender.send_nonce_base sender.send_counter) _ e in
      let (sealed, done, e2) = >>=-eq-ok (encrypt cipher sender.send_key nonce text aad) _ e1 in
      let opened = decrypt-encrypt cipher sender.send_key nonce text aad done in
      rw (← ok_inj e2, ← same, opened) (unfold count_received in refl)

  -- What one of two paired channels has encrypted, in either direction, the other one decrypts to the
  -- text with the same additional data, and it counts the message.
  pub decrypt_from_peer-encrypt_to_peer :
      (text aad : Bytes) (a b : Channel) (m n : Message)
      → IsPaired a b
      → (encrypt_to_peer cipher text aad a).1 ≡ ok m
      → (encrypt_to_peer cipher text aad b).1 ≡ ok n
      → (decrypt_from_peer cipher m.nonce m.sealed aad b
          ≡ (record b { recv_counter = b.recv_counter + 1 }, ok (some text)))
        × (decrypt_from_peer cipher n.nonce n.sealed aad a
            ≡ (record a { recv_counter = a.recv_counter + 1 }, ok (some text)))
  decrypt_from_peer-encrypt_to_peer text aad a b m n p sent_a sent_b =
      (opens text aad a b m p.a_to_b_key sent_a, opens text aad b a n p.b_to_a_key sent_b)
