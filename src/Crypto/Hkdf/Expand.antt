-- ===== src/Crypto/Hkdf/Expand.antt =====
-- HKDF-Expand against RFC 5869: the first bytes of the blocks T(1), T(2), ….
use Prim.Native.Nat.{bit_xor}
use new_zone_reference.Prelude.{
  ℕ, ◌+◌, ◌-◌, ◌*◌, ◌/◌, ◌≤◌, ◌<◌, String, ◌≡◌, refl, sym, ◌∙◌, inl, inr, false, ◌||◌, Option, none,
  some, [], ◌++◌, map, arith, str_eq, ltb, leb, if◌then◌else◌, Bool-cases, length, take,
  length-take,
}
use new_zone_reference.Crypto.Bytes.{Bytes}
use new_zone_reference.Crypto.Result.{
  throw_if-eq-ok, invalid_length, ok_inj, >>=-eq-ok, throw_if, Result, ok,
}
use new_zone_reference.Crypto.Hkdf.{
  hkdf_expand, pad_to, hmac_of, hmac_blake2b, block_key, block_size, blake2b, Hashes, hash_len,
}
use new_zone_reference.Crypto.Hkdf.Blocks.{blocks, length-blocks, expand_loop-blocks}

module _ (crypto : Hashes) where
  blake2b_full : Bytes → Bytes
  blake2b_full text = take 64 (crypto.blake2b512 none text)

  blake2b-full : (text : Bytes) → blake2b crypto text 64 none ≡ ok (blake2b_full text)
  unfolding blake2b blake2b_full
  blake2b-full text = refl

  length-blake2b_full : (text : Bytes) → length (blake2b_full text) ≡ 64
  unfolding blake2b_full
  length-blake2b_full text =
      omega
        (arith, length-take 64 (crypto.blake2b512 none text), crypto.length-blake2b512 none text)

  -- `block_key` never fails.
  block_key_value : Bytes → Bytes
  block_key_value key =
      let k = if ltb block_size (length key) then blake2b_full key else key in
      if ltb (length k) block_size then pad_to block_size k else k

  block_key-value : (key : Bytes) → block_key crypto key ≡ ok (block_key_value key)
  unfolding block_key block_key_value blake2b_full
  block_key-value key = elim (Bool-cases (ltb block_size (length key))) [
    | inl long ↦ rw long refl
    | inr short ↦ rw short refl
  ]

  hmac_blake2b_value : Bytes → Bytes → Bytes
  hmac_blake2b_value key text =
      let k = block_key_value key in
      blake2b_full
        (map (λ b. bit_xor b 0x5c) k ++ blake2b_full (map (λ b. bit_xor b 0x36) k ++ text))

  hmac_blake2b-value :
      (key text : Bytes) → hmac_blake2b crypto key text ≡ ok (hmac_blake2b_value key text)
  unfolding hmac_blake2b hmac_blake2b_value blake2b_full
  hmac_blake2b-value key text = rw (block_key-value key) refl

  -- What an HMAC computes for a key, when it always succeeds with 64 bytes.
  record IsTotal (hmac : Bytes → Bytes → Result Bytes) (prk : Bytes) : Type 0 where
    digest : Bytes → Bytes
    total : (text : Bytes) → hmac prk text ≡ ok (digest text)
    size : (text : Bytes) → length (digest text) ≡ hash_len

  sha512-IsTotal :
      (hmac : Bytes → Bytes → Result Bytes) (prk : Bytes)
      → (λ key text. ok (crypto.hmac_sha512 key text)) ≡ hmac
      → IsTotal hmac prk
  sha512-IsTotal hmac prk same = record {
    digest = crypto.hmac_sha512 prk;
    total = λ text. rw (← same) refl;
    size = crypto.length-hmac_sha512 prk;
  }

  blake2b-IsTotal :
      (hmac : Bytes → Bytes → Result Bytes) (prk : Bytes)
      → hmac_blake2b crypto ≡ hmac
      → IsTotal hmac prk
  unfolding hmac_blake2b_value
  blake2b-IsTotal hmac prk same = record {
    digest = hmac_blake2b_value prk;
    total = λ text. rw (← same) (hmac_blake2b-value prk text);
    size = λ text. length-blake2b_full _;
  }

  -- Every HMAC that a hash name gives succeeds, with 64 bytes.
  hmac_of-IsTotal :
      (hash : Option String) (hmac : Bytes → Bytes → Result Bytes) (prk : Bytes)
      → hmac_of crypto hash ≡ ok hmac
      → IsTotal hmac prk
  unfolding hmac_of
  hmac_of-IsTotal none hmac prk e = sha512-IsTotal hmac prk (ok_inj e)
  hmac_of-IsTotal (some hash) hmac prk e =
      let h = crypto.lower (if str_eq hash "" then "sha512" else hash) in
      elim (Bool-cases (str_eq h "sha512")) [
        | inl sha ↦ sha512-IsTotal hmac prk (ok_inj (rw sha at e))
        | inr other ↦
            let e' = rw other at e in
            elim (Bool-cases (str_eq h "blake2b")) [
              | inl blake ↦ blake2b-IsTotal hmac prk (ok_inj (rw blake at e'))
              | inr neither ↦ absurd (let no = rw neither at e' in cc)
            ]
      ]

  -- For a hash that is supported and a length from 1 to 255 digests, the expansion succeeds, and its
  -- result is the first `len` bytes of the blocks of RFC 5869 for the HMAC of that hash, each of 64
  -- bytes.
  pub hkdf_expand-blocks :
      (hash : Option String) (prk info : Bytes) (len : ℕ) (hmac : Bytes → Bytes → Result Bytes)
      → hmac_of crypto hash ≡ ok hmac
      → 0 < len
      → len ≤ 255 * hash_len
      → (h : Bytes → Bytes) × ((text : Bytes) → hmac prk text ≡ ok (h text))
        × ((text : Bytes) → length (h text) ≡ hash_len)
        × (hkdf_expand crypto hash prk info len
            ≡ ok (take len (blocks h info ((len + hash_len - 1) / hash_len) 1 [])))
  unfolding hkdf_expand
  hkdf_expand-blocks hash prk info len hmac e low high =
      let t = hmac_of-IsTotal hash hmac prk e in
      let nothing : len - 0 ≡ len = omega arith in
      let inside : leb len 0 || ltb (255 * hash_len) len ≡ false = ground arith in
      (
        t.digest,
        t.total,
        t.size,
        rw (e, inside)
            (rw nothing at (
              expand_loop-blocks crypto hmac t.digest prk info t.total t.size len
                ((len + hash_len - 1) / hash_len) 1 [] [] (omega arith) (omega arith))),
      )

  -- A result of the expansion has exactly the length that was asked for, which lies in the range.
  pub length-hkdf_expand :
      (hash : Option String) (prk info : Bytes) (len : ℕ) (okm : Bytes)
      → hkdf_expand crypto hash prk info len ≡ ok okm
      → (length okm ≡ len) × (0 < len) × (len ≤ 255 * hash_len)
  unfolding hkdf_expand
  length-hkdf_expand hash prk info len okm e =
      let (hmac, found, e') = >>=-eq-ok (hmac_of crypto hash) _ e in
      let (u, checked, e'') =
        >>=-eq-ok (throw_if (leb len 0 || ltb (255 * hash_len) len) invalid_length) _ e' in
      let inside = throw_if-eq-ok (leb len 0 || ltb (255 * hash_len) len) invalid_length checked in
      let low : 0 < len = ground arith in
      let high : len ≤ 255 * hash_len = ground arith in
      let (h, total, size, same) = hkdf_expand-blocks hash prk info len hmac found low high in
      let rounds = (len + hash_len - 1) / hash_len in
      rw (← ok_inj (sym same ∙ e)) (
        omega (
          arith,
          length-take len (blocks h info rounds 1 []),
          length-blocks h size info rounds 1 [],
        ),
        low,
        high,
      )
