-- ===== src/Crypto/X25519/Residues.antt =====
-- lib/x25519.js: the field operations on numbers that stand for differences. A remainder stands for
-- a - b when adding b to it gives a, up to multiples of the prime.
use new_zone_reference.Prelude.{ℕ, ◌+◌, ◌*◌, ◌%◌, ◌<◌, ◌≡◌, sym, ap, ◌∙◌, arith}
use native.Mathlib.Nat.{mod-lt, mul_comm}
use new_zone_reference.Crypto.X25519.{prime, mod_prime, add, sub, mul}
use new_zone_reference.Crypto.X25519.Inverse.{mul-mod}

pub data StandsFor (n a b : ℕ) : Type 0 where
  stands : (n + b) % prime ≡ a % prime → StandsFor n a b

pub number-StandsFor : (n : ℕ) → StandsFor n n 0
number-StandsFor n = stands (omega arith)

pub add-StandsFor :
    {n m a b c d : ℕ} → StandsFor n a b → StandsFor m c d → StandsFor (add n m) (a + c) (b + d)
unfolding add mod_prime
add-StandsFor {n} {m} {a} {b} {c} {d} (stands hn) (stands hm) = stands (omega arith)

pub sub-StandsFor :
    {n m a b c d : ℕ} → StandsFor n a b → StandsFor m c d → StandsFor (sub n m) (a + d) (b + c)
unfolding sub mod_prime
sub-StandsFor {n} {m} {a} {b} {c} {d} (stands hn) (stands hm) = stands (ground arith)

scale : (a b k : ℕ) → a % prime ≡ b % prime → a * k % prime ≡ b * k % prime
scale a b k h = sym (mul-mod prime a k) ∙ ap (λ t. t * k % prime) h ∙ mul-mod prime b k

pub mul-StandsFor :
    {n m a b c d : ℕ}
    → StandsFor n a b
    → StandsFor m c d
    → StandsFor (mul n m) (a * c + b * d) (a * d + b * c)
unfolding mul mod_prime
mul-StandsFor {n} {m} {a} {b} {c} {d} (stands hn) (stands hm) =
    let left : (n * m + b * m) % prime ≡ a * m % prime =
      ap (λ t. t % prime) (omega arith) ∙ scale (n + b) a m hn in
    let high : (a * m + a * d) % prime ≡ a * c % prime =
      ap (λ t. t % prime) (omega arith)
      ∙ scale (m + d) c a hm
      ∙ ap (λ t. t % prime) (mul_comm c a) in
    let low : (b * m + b * d) % prime ≡ b * c % prime =
      ap (λ t. t % prime) (omega arith)
      ∙ scale (m + d) c b hm
      ∙ ap (λ t. t % prime) (mul_comm c b) in
    stands (omega arith)

-- The same difference, written otherwise.
pub same_difference : {n a b c d : ℕ} → StandsFor n a b → a + d ≡ c + b → StandsFor n c d
same_difference (stands h) e = stands (omega arith)

-- A remainder that stands for a difference is the remainder of the difference.
pub remainder_of_difference :
    (k : ℕ) {n a b : ℕ} → n < prime → StandsFor n a b → k + b ≡ a → n ≡ k % prime
remainder_of_difference k small (stands h) e = omega arith

pub mul-lt : (a b : ℕ) → mul a b < prime
unfolding mul mod_prime
mul-lt a b = mod-lt (a * b) (omega arith)
