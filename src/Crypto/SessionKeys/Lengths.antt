-- ===== src/Crypto/SessionKeys/Lengths.antt =====
-- The lengths of the session keys, and how they divide the key material.
use new_zone_reference.Prelude.{
  ℕ, ◌+◌, ◌-◌, ◌*◌, ◌≤◌, ◌<◌, String, ◌≡◌, ◌||◌, Option, none, arith, ltb, leb, ◌==◌, length, drop,
  length-take, length-drop,
}
use new_zone_reference.Crypto.Bytes.{Bytes, concat_bytes}
use new_zone_reference.Crypto.Result.{
  throw_if-eq-ok, out_len_out_of_range, ok, throw_if, >>=-eq-ok, ok_inj, shared_secret_empty,
  key_length_out_of_range,
}
use new_zone_reference.Crypto.Hkdf.{Hashes, blake2b, hkdf, hkdf_extract}
use new_zone_reference.Crypto.Hkdf.Expand.{length-hkdf_expand}
use new_zone_reference.Crypto.SessionKeys.{SessionKeys, subarray, label, derive_session_keys}

split-length :
    (key_length : ℕ) (okm : Bytes)
    → length okm ≡ key_length * 2 + 12
    → (length (subarray 0 key_length okm) ≡ key_length)
      × (length (subarray key_length (key_length * 2) okm) ≡ key_length)
      × (length (subarray (key_length * 2) (key_length * 2 + 12) okm) ≡ 12)
unfolding subarray
split-length key_length okm size = (
  omega (arith, length-take (key_length - 0) (drop 0 okm)),
  omega (
    arith,
    length-take (key_length * 2 - key_length) (drop key_length okm),
    length-drop key_length okm,
  ),
  omega (
    arith,
    length-take (key_length * 2 + 12 - key_length * 2) (drop (key_length * 2) okm),
    length-drop (key_length * 2) okm,
  ),
)

module _ (crypto : Hashes) where
  length-hkdf :
      (hash : Option String) (salt ikm info : Bytes) (len : ℕ) (okm : Bytes)
      → hkdf crypto hash salt ikm info len ≡ ok okm
      → length okm ≡ len
  unfolding hkdf
  length-hkdf hash salt ikm info len okm e =
      let (prk, found, e') = >>=-eq-ok (hkdf_extract crypto hash salt ikm) _ e in
      (length-hkdf_expand crypto hash prk info len okm e').0

  length-blake2b :
      (msg : Bytes) (n : ℕ) (key : Option Bytes) (digest : Bytes)
      → blake2b crypto msg n key ≡ ok digest
      → length digest ≡ n
  unfolding blake2b
  length-blake2b msg n key digest e =
      let (u, checked, e') = >>=-eq-ok (throw_if (leb n 0 || ltb 64 n) out_len_out_of_range) _ e in
      let inside = throw_if-eq-ok (leb n 0 || ltb 64 n) out_len_out_of_range checked in
      let bound : n ≤ 64 = ground arith in
      rw (← ok_inj e')
        (omega (arith, length-take n (crypto.blake2b512 key msg), crypto.length-blake2b512 key msg))

  -- Session keys that are derived have an encryption and a decryption key of the length that was
  -- asked for, from 1 to 64 bytes, a nonce base of 12 bytes, a session identifier of 16 and a hash
  -- of the context of 32; the secret is not empty.
  pub length-derive_session_keys :
      (ss ctx : Bytes) (hash : Option String) (key_length : ℕ) (keys : SessionKeys)
      → derive_session_keys crypto ss ctx hash key_length ≡ ok keys
      → (length keys.enc_key ≡ key_length)
        × (length keys.dec_key ≡ key_length)
        × (length keys.nonce_base ≡ 12)
        × (length keys.session_id ≡ 16)
        × (length keys.context_hash ≡ 32)
        × (0 < key_length)
        × (key_length ≤ 64)
        × (0 < length ss)
  unfolding derive_session_keys
  length-derive_session_keys ss ctx hash key_length keys e =
      let (u, filled, e1) = >>=-eq-ok (throw_if (length ss == 0) shared_secret_empty) _ e in
      let (v, checked, e2) =
        >>=-eq-ok (throw_if (leb key_length 0 || ltb 64 key_length) key_length_out_of_range) _ e1 in
      let (context_hash, hashed, e3) = >>=-eq-ok (blake2b crypto ctx 32 none) _ e2 in
      let (session_id, named, e4) = >>=-eq-ok (blake2b crypto (concat_bytes ss ctx) 16 none) _ e3 in
      let (okm, expanded, e5) =
        >>=-eq-ok
          (hkdf crypto hash context_hash ss (concat_bytes context_hash label) (key_length * 2 + 12))
          _ e4 in
      let nonempty = throw_if-eq-ok (length ss == 0) shared_secret_empty filled in
      let inside =
        throw_if-eq-ok (leb key_length 0 || ltb 64 key_length) key_length_out_of_range checked in
      let (enc, dec, base) = split-length key_length okm (
        length-hkdf hash context_hash ss (concat_bytes context_hash label) (key_length * 2 + 12) okm
          expanded) in
      rw (← ok_inj e5) (
        enc,
        dec,
        base,
        length-blake2b (concat_bytes ss ctx) 16 none session_id named,
        length-blake2b ctx 32 none context_hash hashed,
        ground arith,
        ground arith,
        ground arith,
      )
