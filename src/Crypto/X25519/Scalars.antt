-- ===== src/Crypto/X25519/Scalars.antt =====
-- Clamped scalars, masked coordinates and the encoding of the result.
use Prim.Native.Nat.{bit_or, bit_and}
use new_zone_reference.Prelude.{
  ℕ, zero, suc, ◌+◌, ◌*◌, ◌%◌, ◌^◌, ◌≤◌, ◌<◌, ◌≡◌, refl, ap, ◌∙◌, ◌↔◌, Bool, true, ◌&&◌, Option,
  none, some, [], ◌∷◌, arith, ltb, leb, ◌==◌, length, replicate,
}
use mathlib.Core.Option.{some_inj}
use native.Mathlib.Nat.{pow-suc}
use new_zone_reference.Prelude.Int.{ℤ, pos, negsuc}
use new_zone_reference.Crypto.Bytes.{Bytes, AreBytes, bytes_to_bigint_le, bigint_to_bytes_le}
use new_zone_reference.Crypto.Bytes.Bits.{bit_and_ones}
use new_zone_reference.Crypto.Bytes.Codec.{
  value, bytes_to_bigint_le-value, length-bigint_to_bytes_le, bigint_to_bytes_le-AreBytes,
  read_write,
}
use new_zone_reference.Crypto.X25519.{
  ◌>>=◌, prime, mod_prime, mul, montgomery_ladder, update, clamp_scalar_bytes,
  decode_u_coordinate_bytes, x25519, x25519_base,
}

-- A test of every number below a bound, by evaluation.
passes : (ℕ → Bool) → ℕ → Bool
passes test zero = true
passes test (suc bound) = passes test bound && test bound

passes_sound :
    (test : ℕ → Bool) (bound b : ℕ) → passes test bound ≡ true → b < bound → test b ≡ true
unfolding passes
passes_sound test zero b all below = absurd (omega arith)
passes_sound test (suc bound) b all below = ground (arith, passes_sound test bound b)

low_clamp : (b : ℕ) → b < 256 → (bit_and b 248 % 8 == 0) && ltb (bit_and b 248) 256 ≡ true
unfolding passes
low_clamp b h = passes_sound (λ b. (bit_and b 248 % 8 == 0) && ltb (bit_and b 248) 256) 256 b refl h

abbrev high : ℕ → ℕ
high b = bit_or (bit_and b 127) 64

high_clamp : (b : ℕ) → b < 256 → leb 64 (high b) && ltb (high b) 128 ≡ true
unfolding passes
high_clamp b h = passes_sound (λ b. leb 64 (high b) && ltb (high b) 128) 256 b refl h

-- A write to the last byte changes the highest digit.
value-update_last :
    (n : ℕ) (bytes : Bytes) (f : ℕ → ℕ)
    → length bytes ≡ suc n
    → AreBytes bytes
    → (low b : ℕ) × (low < 256 ^ n) × (b < 256) × (value (update n f bytes) ≡ low + 256 ^ n * f b)
unfolding value update
value-update_last zero [] f h bs = absurd (omega arith)
value-update_last zero (b ∷ []) f h bs = (0, b, omega arith, bs.0, omega arith)
value-update_last zero (b ∷ c ∷ bytes) f h bs = absurd (omega arith)
value-update_last (suc n) [] f h bs = absurd (omega arith)
value-update_last (suc n) (b ∷ bytes) f h bs =
    let (low, t, below, byte, e) = value-update_last n bytes f (omega arith) bs.1 in
    (
      b + 256 * low,
      t,
      omega (arith, pow-suc 256 n, bs.0),
      byte,
      rw (e, pow-suc 256 n) (omega arith),
    )

update-AreBytes :
    (i : ℕ) (f : ℕ → ℕ) (bytes : Bytes)
    → ((b : ℕ) → b < 256 → f b < 256)
    → AreBytes bytes
    → AreBytes (update i f bytes)
unfolding update
update-AreBytes i f [] keep bs = tt
update-AreBytes zero f (b ∷ bytes) keep bs = (keep b bs.0, bs.1)
update-AreBytes (suc i) f (b ∷ bytes) keep bs = (bs.0, update-AreBytes i f bytes keep bs.1)

length-update : (i : ℕ) (f : ℕ → ℕ) (bytes : Bytes) → length (update i f bytes) ≡ length bytes
unfolding update
length-update i f [] = refl
length-update zero f (b ∷ bytes) = refl
length-update (suc i) f (b ∷ bytes) = ap suc (length-update i f bytes)

-- The byte string with its first byte masked.
abbrev masked : Bytes → Bytes
masked k = update 0 (λ b. bit_and b 248) k

masked-AreBytes : (k : Bytes) → AreBytes k → AreBytes (masked k)
masked-AreBytes k bs =
    update-AreBytes 0 (λ b. bit_and b 248) k (λ b h. ground (arith, low_clamp b h)) bs

clamped-value :
    (k : Bytes)
    → AreBytes k
    → bytes_to_bigint_le (update 31 high (masked k)) ≡ value (update 31 high (masked k))
clamped-value k bs = bytes_to_bigint_le-value (update 31 high (masked k)) (
    update-AreBytes 31 high (masked k) (λ b h. ground (arith, high_clamp b h))
      (masked-AreBytes k bs))

value-masked_mod : (k : Bytes) → AreBytes k → value (update 31 high (masked k)) % 8 ≡ 0
unfolding value update
value-masked_mod [] bs = refl
value-masked_mod (b ∷ k) bs = ground (arith, low_clamp b bs.0)

-- A scalar of 32 bytes is clamped to a multiple of 8 that lies from 2^254 up to but not including
-- 2^255.
pub clamp_scalar_bytes-range :
    (k : Bytes)
    → length k ≡ 32
    → AreBytes k
    → (s : ℕ) × (clamp_scalar_bytes k ≡ some s) × (s % 8 ≡ 0) × (2 ^ 254 ≤ s) × (s < 2 ^ 255)
unfolding clamp_scalar_bytes
clamp_scalar_bytes-range k size bs =
    let (low, b, below, byte, e) =
      value-update_last 31 (masked k) high (length-update 0 (λ b. bit_and b 248) k ∙ size)
        (masked-AreBytes k bs) in
    let e' = clamped-value k bs ∙ e in
    let top = high_clamp b byte in
    (
      bytes_to_bigint_le (update 31 high (masked k)),
      rw size refl,
      rw (clamped-value k bs) (value-masked_mod k bs),
      rw e' (high_low low (high b) below (ground arith)).0,
      rw e' (high_low low (high b) below (ground arith)).1,
    )
  where
    high_low :
        (low top : ℕ)
        → low < 256 ^ 31
        → (64 ≤ top) × (top < 128)
        → (2 ^ 254 ≤ low + 256 ^ 31 * top) × (low + 256 ^ 31 * top < 2 ^ 255)
    high_low low top h t = (omega arith, omega arith)

-- A scalar or a coordinate of another length is refused, and only such a one.
pub x25519-none_iff : (k u : Bytes) → (x25519 k u ≡ none) ↔ (¬ ((length k ≡ 32) × (length u ≡ 32)))
unfolding x25519 clamp_scalar_bytes decode_u_coordinate_bytes
x25519-none_iff k u = ground arith

mod_prime-lt : (a : ℤ) → mod_prime a < prime
unfolding mod_prime
mod_prime-lt (pos n) = omega arith
mod_prime-lt (negsuc n) = ground arith

montgomery_ladder-lt : (k u : ℕ) → montgomery_ladder k u < prime
unfolding montgomery_ladder mul
montgomery_ladder-lt k u = mod_prime-lt (pos _)

>>=-eq-some {ℓ κ} :
    {A : Type ℓ} {B : Type κ} (m : Option A) (f : A → Option B) {b : B}
    → (m >>= f) ≡ some b
    → (a : A) × (m ≡ some a) × (f a ≡ some b)
>>=-eq-some none f h = cc
>>=-eq-some (some a) f h = (a, refl, h)

-- A result is 32 bytes that stand for a number below the prime.
pub x25519-canonical :
    (k u out : Bytes)
    → x25519 k u ≡ some out
    → (length out ≡ 32) × AreBytes out × (bytes_to_bigint_le out < prime)
unfolding x25519
x25519-canonical k u out h =
    let (s, clamped, h') = >>=-eq-some (clamp_scalar_bytes k) _ h in
    let (p, decoded, h'') = >>=-eq-some (decode_u_coordinate_bytes u) _ h' in
    let r = montgomery_ladder s p in
    let written : bigint_to_bytes_le r 32 ≡ out = some_inj.0 h'' in
    let below = montgomery_ladder-lt s p in
    rw (← written) (
      length-bigint_to_bytes_le r 32,
      bigint_to_bytes_le-AreBytes r 32,
      rw (read_write r 32 (omega arith)) below,
    )

-- The standard base point, 9 in 32 bytes.
abbrev pub base_point : Bytes
base_point = 9 ∷ replicate 31 0

-- `x25519Base` is `x25519` at the base point.
pub x25519_base_lem : (k : Bytes) → x25519_base k ≡ x25519 k base_point
unfolding x25519_base x25519 decode_u_coordinate_bytes
x25519_base_lem k = refl

bit_and_mask_idem : (b : ℕ) → bit_and (bit_and b 0x7f) 0x7f ≡ bit_and b 0x7f
bit_and_mask_idem b =
    omega (
      arith,
      bit_and_ones 7 b 0x7f (omega arith),
      bit_and_ones 7 (bit_and b 0x7f) 0x7f (omega arith),
    )

update-update_idem :
    (i : ℕ) (f : ℕ → ℕ) (bytes : Bytes)
    → ((b : ℕ) → f (f b) ≡ f b)
    → update i f (update i f bytes) ≡ update i f bytes
unfolding update
update-update_idem i f [] h = refl
update-update_idem zero f (b ∷ bytes) h = ap (λ c. c ∷ bytes) (h b)
update-update_idem (suc i) f (b ∷ bytes) h = ap (◌∷◌ b) (update-update_idem i f bytes h)

-- The highest bit of the last byte of a coordinate is ignored.
pub x25519-masked : (k u : Bytes) → x25519 k (update 31 (λ b. bit_and b 0x7f) u) ≡ x25519 k u
unfolding x25519 decode_u_coordinate_bytes
x25519-masked k u =
    rw
      (
        length-update 31 (λ b. bit_and b 0x7f) u,
        update-update_idem 31 (λ b. bit_and b 0x7f) u bit_and_mask_idem,
      )
      refl
