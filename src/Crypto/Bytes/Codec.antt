-- ===== src/Crypto/Bytes/Codec.antt =====
-- The little-endian codec of lib/x25519.js, read against the number that bytes stand for.
use Prim.Native.Nat.{bit_and}
use native.Mathlib.Nat.{pow-suc}
use native.Mathlib.Numerals.{towards_suc}
use new_zone_reference.Prelude.{
  ℕ, zero, suc, ◌+◌, ◌*◌, ◌/◌, ◌%◌, ◌^◌, ◌<◌, ◌≡◌, refl, ap, ◌∙◌, [], ◌∷◌, arith, length,
}
use new_zone_reference.Crypto.Bytes.{
  Bytes, AreBytes, from_bytes_loop, bytes_to_bigint_le, bigint_to_bytes_le,
}
use new_zone_reference.Crypto.Bytes.Bits.{bit_or_shift, bit_and_ones}

-- The number that the bytes stand for, lowest first.
unfoldable pub value : Bytes → ℕ
value [] = 0
value (b ∷ bytes) = b + 256 * value bytes

pow_byte : (i : ℕ) → 2 ^ (8 * (i + 1)) ≡ 256 * 2 ^ (8 * i)
pow_byte i = ap (λ (t : ℕ). 2 ^ t) (omega arith) ∙ pow_eight (8 * i)
  where
    pow_eight : (s : ℕ) → 2 ^ (s + 8) ≡ 256 * 2 ^ s
    pow_eight s = simp towards_suc (omega arith)

regroup : (p r b v : ℕ) → r + b * p + 256 * p * v ≡ r + p * (b + 256 * v)
regroup p r b v = omega arith

from_bytes_loop-value :
    (i r : ℕ) (bytes : Bytes)
    → AreBytes bytes
    → r < 2 ^ (8 * i)
    → from_bytes_loop i r bytes ≡ r + 2 ^ (8 * i) * value bytes
unfolding from_bytes_loop value
from_bytes_loop-value i r [] bs h = omega arith
from_bytes_loop-value i r (b ∷ bytes) bs h = rw (bit_or_shift (8 * i) r b h) (
    from_bytes_loop-value (i + 1) (r + b * 2 ^ (8 * i)) bytes bs.1 below
    ∙ rw (pow_byte i) (regroup (2 ^ (8 * i)) r b (value bytes)))
  where
    below : r + b * 2 ^ (8 * i) < 2 ^ (8 * (i + 1))
    below = grind (arith, pow_byte i, bs.0)

pub bytes_to_bigint_le-value :
    (bytes : Bytes) → AreBytes bytes → bytes_to_bigint_le bytes ≡ value bytes
unfolding bytes_to_bigint_le
bytes_to_bigint_le-value bytes bs = from_bytes_loop-value 0 0 bytes bs (omega arith) ∙ omega arith

low_byte : (v : ℕ) → bit_and v 0xff ≡ v % 256
low_byte v = bit_and_ones 8 v 0xff (omega arith)

pub length-bigint_to_bytes_le : (v size : ℕ) → length (bigint_to_bytes_le v size) ≡ size
unfolding bigint_to_bytes_le
length-bigint_to_bytes_le v zero = refl
length-bigint_to_bytes_le v (suc size) = ap suc (length-bigint_to_bytes_le (v / 2 ^ 8) size)

pub bigint_to_bytes_le-AreBytes : (v size : ℕ) → AreBytes (bigint_to_bytes_le v size)
unfolding bigint_to_bytes_le
bigint_to_bytes_le-AreBytes v zero = tt
bigint_to_bytes_le-AreBytes v (suc size) =
    (omega (arith, low_byte v), bigint_to_bytes_le-AreBytes (v / 2 ^ 8) size)

value-bigint_to_bytes_le : (v size : ℕ) → v < 256 ^ size → value (bigint_to_bytes_le v size) ≡ v
unfolding bigint_to_bytes_le value
value-bigint_to_bytes_le v zero h = omega arith
value-bigint_to_bytes_le v (suc size) h =
    omega (
      arith,
      low_byte v,
      value-bigint_to_bytes_le (v / 2 ^ 8) size (omega (arith, pow-suc 256 size)),
    )

-- Writing a number that fits the size and reading the bytes gives the number back.
pub read_write : (v size : ℕ) → v < 256 ^ size → bytes_to_bigint_le (bigint_to_bytes_le v size) ≡ v
read_write v size h =
    bytes_to_bigint_le-value (bigint_to_bytes_le v size) (bigint_to_bytes_le-AreBytes v size)
    ∙ value-bigint_to_bytes_le v size h

bigint_to_bytes_le-value :
    (bytes : Bytes) → AreBytes bytes → bigint_to_bytes_le (value bytes) (length bytes) ≡ bytes
unfolding bigint_to_bytes_le value
bigint_to_bytes_le-value [] bs = refl
bigint_to_bytes_le-value (b ∷ bytes) bs =
    let head : bit_and (b + 256 * value bytes) 0xff ≡ b =
      omega (arith, low_byte (b + 256 * value bytes), bs.0) in
    let rest : (b + 256 * value bytes) / 2 ^ 8 ≡ value bytes = omega (arith, bs.0) in
    rw (head, rest) (ap (◌∷◌ b) (bigint_to_bytes_le-value bytes bs.1))

-- Reading bytes and writing the number at their length gives the bytes back.
pub write_read :
    (bytes : Bytes)
    → AreBytes bytes
    → bigint_to_bytes_le (bytes_to_bigint_le bytes) (length bytes) ≡ bytes
write_read bytes bs =
    ap (λ v. bigint_to_bytes_le v (length bytes)) (bytes_to_bigint_le-value bytes bs)
    ∙ bigint_to_bytes_le-value bytes bs
