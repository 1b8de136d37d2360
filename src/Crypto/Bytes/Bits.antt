-- ===== src/Crypto/Bytes/Bits.antt =====
-- `|` of numbers with no digit in common, and `&` with a mask of ones, as arithmetic.
use Prim.Native.Nat.{min, max, digits, bitwise, bit_or, bit_and, bit_or-bitwise, bit_and-bitwise}
use native.Mathlib.Nat.{pow-suc, one-le-pow, mul_comm}
use new_zone_reference.Prelude.{
  ℕ, zero, suc, ◌+◌, ◌*◌, ◌/◌, ◌%◌, ◌^◌, ◌≤◌, ◌<◌, ◌≡◌, refl, sym, ap, ◌∙◌, arith,
}

-- The fuel of the digit recursion does not matter once it covers the first number.
module _ (z : ℕ → ℕ) (f : ℕ → ℕ → ℕ) where
  digits-bitwise :
      (bound fuel a b : ℕ) → fuel ≤ bound → a ≤ fuel → digits z f fuel a b ≡ bitwise z f a b
  digits-bitwise bound zero zero b h k = refl
  digits-bitwise bound (suc fuel) zero b h k = refl
  digits-bitwise bound zero (suc a) b h k = absurd (omega arith)
  digits-bitwise zero (suc fuel) (suc a) b h k = absurd (omega arith)
  digits-bitwise (suc bound) (suc fuel) (suc a) b h k =
      ap (λ t. t * 2 + f (suc a % 2) (b % 2))
        (digits-bitwise bound fuel (suc a / 2) (b / 2) (omega arith) (omega arith)
          ∙ sym (digits-bitwise bound a (suc a / 2) (b / 2) (omega arith) (omega arith)))

bit_or-halves : (a b : ℕ) → bit_or a b ≡ bit_or (a / 2) (b / 2) * 2 + max (a % 2) (b % 2)
bit_or-halves zero b = rw bit_or-bitwise (rw bit_or-bitwise (omega arith))
bit_or-halves (suc a) b =
    bit_or-bitwise (suc a) b
    ∙ ap (λ t. t * 2 + max (suc a % 2) (b % 2))
        (digits-bitwise (λ b. b) max a a (suc a / 2) (b / 2) (omega arith) (omega arith)
          ∙ sym (bit_or-bitwise (suc a / 2) (b / 2)))

bit_and-halves : (a b : ℕ) → bit_and a b ≡ bit_and (a / 2) (b / 2) * 2 + min (a % 2) (b % 2)
bit_and-halves zero b = rw bit_and-bitwise (rw bit_and-bitwise (omega arith))
bit_and-halves (suc a) b =
    bit_and-bitwise (suc a) b
    ∙ ap (λ t. t * 2 + min (suc a % 2) (b % 2))
        (digits-bitwise (λ b. 0) min a a (suc a / 2) (b / 2) (omega arith) (omega arith)
          ∙ sym (bit_and-bitwise (suc a / 2) (b / 2)))

zero-bit_or : (b : ℕ) → bit_or 0 b ≡ b
zero-bit_or b = bit_or-bitwise 0 b

-- A number below `2 ^ k` joined with a multiple of `2 ^ k` is their sum.
pub bit_or_shift : (k a b : ℕ) → a < 2 ^ k → bit_or a (b * 2 ^ k) ≡ a + b * 2 ^ k
bit_or_shift zero zero b h = rw zero-bit_or (omega arith)
bit_or_shift zero (suc a) b h = absurd (omega arith)
bit_or_shift (suc k) a b h =
    let double : b * 2 ^ suc k ≡ 2 * (b * 2 ^ k) =
      omega (arith, ap (λ (t : ℕ). b * t) (pow-suc 2 k)) in
    omega (
      arith,
      double,
      bit_or-halves a (b * 2 ^ suc k),
      pow-suc 2 k,
      ap (bit_or (a / 2)) (halve double),
      bit_or_shift k (a / 2) b (omega (arith, pow-suc 2 k)),
    )
  where
    halve : b * 2 ^ suc k ≡ 2 * (b * 2 ^ k) → (b * 2 ^ suc k) / 2 ≡ b * 2 ^ k
    halve e = omega arith

zero-bit_and : (b : ℕ) → bit_and 0 b ≡ 0
zero-bit_and b = bit_and-bitwise 0 b

bit_and-zero_below : (n a : ℕ) → a ≤ n → bit_and a 0 ≡ 0
bit_and-zero_below n zero h = zero-bit_and 0
bit_and-zero_below zero (suc a) h = absurd (omega arith)
bit_and-zero_below (suc n) (suc a) h =
    omega (arith, bit_and-halves (suc a) 0, bit_and-zero_below n (suc a / 2) (omega arith))

mod_double : (p a : ℕ) → 0 < p → a % (2 * p) ≡ a / 2 % p * 2 + a % 2
mod_double p a h = grind (arith)

-- A mask of `k` ones is the remainder by `2 ^ k`.
pub bit_and_ones : (k a m : ℕ) → m + 1 ≡ 2 ^ k → bit_and a m ≡ a % 2 ^ k
bit_and_ones zero a zero h = omega (arith, bit_and-zero_below a a (omega arith))
bit_and_ones zero a (suc m) h = absurd (omega arith)
bit_and_ones (suc k) a m h = omega (
  arith,
  bit_and-halves a m,
  pow-suc 2 k,
  one-le-pow k 2,
  bit_and_ones k (a / 2) (m / 2) (omega (arith, pow-suc 2 k)),
  rw (mul_comm 2 (2 ^ k)) at (mod_double (2 ^ k) a (omega (arith, one-le-pow k 2))),
  ap (λ (t : ℕ). a % t) (pow-suc 2 k),
)
