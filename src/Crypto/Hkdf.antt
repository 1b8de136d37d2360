-- ===== src/Crypto/Hkdf.antt =====
-- lib/blake2b.js and lib/hkdf.js: hashing with a chosen length, HMAC over BLAKE2b, and HKDF.
pub mod Blocks
pub mod Expand
use Prim.Native.Nat.{min, bit_xor}
use new_zone_reference.Prelude.{
  ℕ, zero, suc, ◌+◌, ◌-◌, ◌*◌, ◌/◌, ◌%◌, ◌^◌, ◌≤◌, ◌<◌, String, ◌≡◌, refl, sym, ap, ◌∙◌, ◌≢◌, ◌↔◌,
  ◌⊎◌, inl, inr, Bool, true, false, not, ◌&&◌, ◌||◌, Option, none, some, List, [], ◌∷◌, ◌++◌, map,
  append_assoc, append-nil, arith, str_eq, eq_iff, eq_refl, ltb, leb, ◌==◌, if◌then◌else◌, ltb→lt,
  lt→ltb, leb→le, ==_iff, Bool-cases, Option-cases, List-cases, length, take, drop, replicate,
  filter, length-append, length-take, length-drop, length-replicate, length-filter, length-map,
  take-append-drop, take-append, drop-append, take_of_le, drop-append_of_le, drop-drop, drop-nil,
  last, length-last, last_of_le, last-last, push_bounded, length-push_bounded, push_bounded-last,
  push_all, push_all-last,
}
use new_zone_reference.Crypto.Bytes.{Bytes, concat_bytes}
use new_zone_reference.Crypto.Result.{
  Result, ok, err, ◌>>=◌, ◌>>◌, throw_if, out_len_out_of_range, unsupported_hash, invalid_length,
}

-- What node:crypto computes, with the lengths of its digests: HMAC-SHA-512 of a key and a text, and
-- the BLAKE2b digest for an optional key and a text. `lower` is `toLowerCase`.
pub record Hashes : Type 0 where
  pub hmac_sha512 : Bytes → Bytes → Bytes
  pub blake2b512 : Option Bytes → Bytes → Bytes
  pub lower : String → String
  pub length-hmac_sha512 : (key text : Bytes) → length (hmac_sha512 key text) ≡ 64
  pub length-blake2b512 : (key : Option Bytes) (text : Bytes) → length (blake2b512 key text) ≡ 64

-- `new Uint8Array(blockSize)` with `tmp.set(k)`, for a key that is not longer.
unfoldable pub pad_to : ℕ → Bytes → Bytes
pad_to n k = k ++ replicate (n - length k) 0

abbrev pub block_size : ℕ
block_size = 128

abbrev pub hash_len : ℕ
hash_len = 64

-- `okm.set(slice, pos)`
unfoldable pub set_bytes : ℕ → Bytes → Bytes → Bytes
set_bytes pos slice okm = take pos okm ++ (slice ++ drop (pos + length slice) okm)

module _ (crypto : Hashes) where
  open crypto use {hmac_sha512, blake2b512, lower}

  -- `blake2b`, of bytes.
  unfoldable pub blake2b : Bytes → ℕ → Option Bytes → Result Bytes
  blake2b msg out_len key = do
    throw_if (leb out_len 0 || ltb 64 out_len) out_len_out_of_range
    ok (take out_len (blake2b512 key msg))

  -- The key of `hmacBlake2b`, cut down or filled up to a block.
  unfoldable pub block_key : Bytes → Result Bytes
  unfolding blake2b pad_to
  block_key key = do
    k ← if ltb block_size (length key) then blake2b key 64 none else ok key
    ok (if ltb (length k) block_size then pad_to block_size k else k)

  -- `hmacBlake2b`
  unfoldable pub hmac_blake2b : Bytes → Bytes → Result Bytes
  unfolding block_key concat_bytes
  hmac_blake2b key text = do
    k ← block_key key
    inner ← blake2b (concat_bytes (map (λ b. bit_xor b 0x36) k) text) 64 none
    blake2b (concat_bytes (map (λ b. bit_xor b 0x5c) k) inner) 64 none

  -- `getHashParams`, of which only the HMAC differs; `none` is a hash that is not given.
  unfoldable pub hmac_of : Option String → Result (Bytes → Bytes → Result Bytes)
  unfolding hmac_blake2b
  hmac_of none = ok (λ key text. ok (hmac_sha512 key text))
  hmac_of (some hash) =
      let h = lower (if str_eq hash "" then "sha512" else hash) in
      if str_eq h "sha512"
      then ok (λ key text. ok (hmac_sha512 key text))
      else if str_eq h "blake2b"
      then ok hmac_blake2b
      else err unsupported_hash

  -- `hkdfExtract`
  unfoldable pub hkdf_extract : Option String → Bytes → Bytes → Result Bytes
  unfolding hmac_of
  hkdf_extract hash salt ikm = do
    hmac ← hmac_of hash
    hmac (if length salt == 0 then replicate hash_len 0 else salt) ikm

  -- The loop of `hkdfExpand`: `rounds` are left, and the counter is `i`.
  unfoldable pub expand_loop :
      (Bytes → Bytes → Result Bytes) → Bytes → Bytes → ℕ → ℕ → ℕ → Bytes → Bytes → ℕ → Result Bytes
  unfolding set_bytes concat_bytes
  expand_loop hmac prk info len zero i t okm pos = ok okm
  expand_loop hmac prk info len (suc rounds) i t okm pos =
      hmac prk (concat_bytes (concat_bytes t info) (i % 256 ∷ [])) >>= λ t'.
      (let slice = take (min hash_len (len - pos)) t' in
        expand_loop hmac prk info len rounds (i + 1) t' (set_bytes pos slice okm)
          (pos + length slice))

  -- `hkdfExpand`
  unfoldable pub hkdf_expand : Option String → Bytes → Bytes → ℕ → Result Bytes
  unfolding hmac_of expand_loop
  hkdf_expand hash prk info len = do
    hmac ← hmac_of hash
    throw_if (leb len 0 || ltb (255 * hash_len) len) invalid_length
    expand_loop hmac prk info len ((len + hash_len - 1) / hash_len) 1 [] (replicate len 0) 0

  -- `hkdf`
  unfoldable pub hkdf : Option String → Bytes → Bytes → Bytes → ℕ → Result Bytes
  unfolding hkdf_extract hkdf_expand
  hkdf hash salt ikm info len = do prk ← hkdf_extract hash salt ikm; hkdf_expand hash prk info len
