-- ===== src/Crypto/SessionKeys.antt =====
-- lib/sessionKeys.js: the session keys of a shared secret and a context.
pub mod Lengths
use new_zone_reference.Prelude.{
  ℕ, zero, suc, ◌+◌, ◌-◌, ◌*◌, ◌/◌, ◌%◌, ◌^◌, ◌≤◌, ◌<◌, String, ◌≡◌, refl, sym, ap, ◌∙◌, ◌≢◌, ◌↔◌,
  ◌⊎◌, inl, inr, Bool, true, false, not, ◌&&◌, ◌||◌, Option, none, some, List, [], ◌∷◌, ◌++◌, map,
  append_assoc, append-nil, arith, str_eq, eq_iff, eq_refl, ltb, leb, ◌==◌, if◌then◌else◌, ltb→lt,
  lt→ltb, leb→le, ==_iff, Bool-cases, Option-cases, List-cases, length, take, drop, replicate,
  filter, length-append, length-take, length-drop, length-replicate, length-filter, length-map,
  take-append-drop, take-append, drop-append, take_of_le, drop-append_of_le, drop-drop, drop-nil,
  last, length-last, last_of_le, last-last, push_bounded, length-push_bounded, push_bounded-last,
  push_all, push_all-last,
}
use new_zone_reference.Crypto.Bytes.{Bytes, concat_bytes}
use new_zone_reference.Crypto.Result.{
  Result, ok, err, ◌>>=◌, ◌>>◌, throw_if, shared_secret_empty, key_length_out_of_range,
}
use new_zone_reference.Crypto.Hkdf.{Hashes, blake2b, hkdf}

pub record SessionKeys : Type 0 where
  pub enc_key : Bytes
  pub dec_key : Bytes
  pub nonce_base : Bytes
  pub session_id : Bytes
  pub context_hash : Bytes

-- "NZ-CRYPTO-02/session-keys" in ASCII.
abbrev pub label : Bytes
label =
    78 ∷ 90 ∷ 45 ∷ 67 ∷ 82 ∷ 89 ∷ 80 ∷ 84 ∷ 79 ∷ 45 ∷ 48 ∷ 50 ∷ 47 ∷ 115 ∷ 101 ∷ 115 ∷ 115 ∷ 105
    ∷ 111 ∷ 110 ∷ 45 ∷ 107 ∷ 101 ∷ 121 ∷ 115 ∷ []

-- `okm.subarray(from, to)`
unfoldable pub subarray : ℕ → ℕ → Bytes → Bytes
subarray from to bytes = take (to - from) (drop from bytes)

module _ (crypto : Hashes) where
  -- `deriveSessionKeys`, of a secret that is given.
  unfoldable pub derive_session_keys : Bytes → Bytes → Option String → ℕ → Result SessionKeys
  unfolding concat_bytes subarray
  derive_session_keys ss ctx hash key_length = do
    throw_if (length ss == 0) shared_secret_empty
    throw_if (leb key_length 0 || ltb 64 key_length) key_length_out_of_range
    context_hash ← blake2b crypto ctx 32 none
    session_id ← blake2b crypto (concat_bytes ss ctx) 16 none
    okm ← hkdf crypto hash context_hash ss (concat_bytes context_hash label) (key_length * 2 + 12)
    ok (record {
      enc_key = subarray 0 key_length okm;
      dec_key = subarray key_length (key_length * 2) okm;
      nonce_base = subarray (key_length * 2) (key_length * 2 + 12) okm;
      session_id = session_id;
      context_hash = context_hash;
    })
