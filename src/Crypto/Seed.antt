-- ===== src/Crypto/Seed.antt =====
-- lib/nz-crypto-seed.js: the derivation of keys from a mnemonic and a password.
use Prim.Native.Char.{Char, code}
use Prim.Native.String as Text
use new_zone_reference.Prelude.{
  ℕ, zero, suc, String, ◌≡◌, Bool, true, false, ◌&&◌, ◌||◌, List, [], ◌∷◌, ◌++◌, ◌==◌,
  if◌then◌else◌, length, take,
}
use new_zone_reference.Crypto.Bytes.{Bytes}

-- What the language and node:crypto compute: `toLowerCase`, `TextEncoder`, SHA-256 and HMAC-SHA-256,
-- with the lengths of the digests.
pub record Tools : Type 0 where
  pub lower : String → String
  pub encode : String → Bytes
  pub sha256 : Bytes → Bytes
  pub hmac_sha256 : Bytes → Bytes → Bytes
  pub length-sha256 : (text : Bytes) → length (sha256 text) ≡ 32
  pub length-hmac_sha256 : (key text : Bytes) → length (hmac_sha256 key text) ≡ 32

-- The white space of `trim` and of `\s`.
abbrev is_among : ℕ → List ℕ → Bool
is_among n [] = false
is_among n (m ∷ ms) = (n == m) || is_among n ms

unfoldable pub is_space : Char → Bool
is_space c = is_among (code c) (
    9 ∷ 10 ∷ 11 ∷ 12 ∷ 13 ∷ 32 ∷ 160 ∷ 5760 ∷ 8192 ∷ 8193 ∷ 8194 ∷ 8195 ∷ 8196 ∷ 8197 ∷ 8198 ∷ 8199
    ∷ 8200 ∷ 8201 ∷ 8202 ∷ 8232 ∷ 8233 ∷ 8239 ∷ 8287 ∷ 12288 ∷ 65279 ∷ [])

unfoldable pub trim_start : String → String
unfolding is_space
trim_start Text.[] = ""
trim_start (Text.◌∷◌ c s) = let rest = trim_start s in if is_space c then rest else Text.◌∷◌ c s

unfoldable pub is_empty : String → Bool
is_empty Text.[] = true
is_empty (Text.◌∷◌ c s) = false

unfoldable pub trim_end : String → String
unfolding is_space is_empty
trim_end Text.[] = ""
trim_end (Text.◌∷◌ c s) =
    let rest = trim_end s in if is_space c && is_empty rest then "" else Text.◌∷◌ c rest

-- `replace(/\s+/g, " ")`; the flag tells that the character before was white space.
unfoldable pub collapse : Bool → String → String
unfolding is_space
collapse spaced Text.[] = ""
collapse spaced (Text.◌∷◌ c s) =
    let after_space = collapse true s in
    let after_letter = collapse false s in
    if is_space c
    then (if spaced then after_space else Text.◌∷◌ " " after_space)
    else Text.◌∷◌ c after_letter

module _ (tools : Tools) where
  -- `normalizeMnemonic`
  unfoldable pub normalize_mnemonic : String → String
  unfolding collapse trim_start trim_end
  normalize_mnemonic mnemonic = collapse false (tools.lower (trim_end (trim_start mnemonic)))

  -- `mnemonicToSeed`
  unfoldable pub mnemonic_to_seed : String → Bytes
  unfolding normalize_mnemonic
  mnemonic_to_seed mnemonic = tools.sha256 (tools.encode (normalize_mnemonic mnemonic))

  -- The loop of `simpleKDF`.
  unfoldable pub kdf_loop : ℕ → Bytes → Bytes
  kdf_loop zero out = out
  kdf_loop (suc i) out = kdf_loop i (tools.sha256 out)

  -- `simpleKDF`
  unfoldable pub simple_kdf : Bytes → Bytes → ℕ → Bytes
  unfolding kdf_loop
  simple_kdf seed_bytes password_bytes iterations =
      kdf_loop iterations (seed_bytes ++ password_bytes)

  -- `deriveMasterSecret`
  unfoldable pub derive_master_secret : String → String → Bytes
  unfolding mnemonic_to_seed simple_kdf
  derive_master_secret mnemonic password =
      simple_kdf (mnemonic_to_seed mnemonic) (tools.encode password) 1000

  -- `hkdfExpand`, of a single block.
  unfoldable pub hkdf_expand : Bytes → String → ℕ → Bytes
  hkdf_expand master_secret info len =
      take len (tools.hmac_sha256 master_secret (tools.encode info ++ 0x01 ∷ []))

  -- `deriveSeedKey`
  unfoldable pub derive_seed_key : Bytes → String → Bytes
  unfolding hkdf_expand
  derive_seed_key master_secret path = hkdf_expand master_secret (Text.◌++◌ "nz:" path) 32

  -- `deriveSeedKeyFromMnemonic`
  unfoldable pub derive_seed_key_from_mnemonic : String → String → String → Bytes
  unfolding derive_master_secret derive_seed_key
  derive_seed_key_from_mnemonic mnemonic password path =
      derive_seed_key (derive_master_secret mnemonic password) path
