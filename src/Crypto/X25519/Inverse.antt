-- ===== src/Crypto/X25519/Inverse.antt =====
-- lib/x25519.js: the inversion by square-and-multiply, against the power that it computes.
use Prim.Native.Nat.{bit_and}
use native.Mathlib.Nat.{
  pow-le-pow_right, pow-suc, pow-zero, mod-lt, mod-eq_of_lt, div-add-mod, mul-add-mod_self_left,
  mul_comm, mul_assoc,
}
use new_zone_reference.Prelude.{
  ℕ, zero, suc, ◌+◌, ◌-◌, ◌*◌, ◌/◌, ◌%◌, ◌^◌, ◌≤◌, ◌<◌, ◌≡◌, refl, sym, ap, ◌∙◌, inl, inr, arith,
  ltb, ◌==◌, Bool-cases,
}
use new_zone_reference.Prelude.Int.{pos}
use new_zone_reference.Crypto.Bytes.Bits.{bit_and_ones}
use new_zone_reference.Crypto.X25519.{prime, mod_prime, mul, inv_loop, inv}

-- The remainder of a product goes by the remainder of its first factor.
pub mul-mod : (m a b : ℕ) → a % m * b % m ≡ a * b % m
mul-mod m a b = sym (
    ap (λ t. t * b % m) (sym (div-add-mod a m))
    ∙ ap (λ t. t % m) regroup
    ∙ mul-add-mod_self_left m (a / m * b) (a % m * b))
  where
    regroup : (m * (a / m) + a % m) * b ≡ m * (a / m * b) + a % m * b
    regroup = omega arith

mul-mod_right : (m a b : ℕ) → a * (b % m) % m ≡ a * b % m
mul-mod_right m a b =
    ap (λ t. t % m) (mul_comm a (b % m)) ∙ mul-mod m b a ∙ ap (λ t. t % m) (mul_comm b a)

pow-mod : (m x e : ℕ) → (x % m) ^ e % m ≡ x ^ e % m
pow-mod m x zero = rw (pow-zero (x % m), pow-zero x) refl
pow-mod m x (suc e) =
    rw (pow-suc (x % m) e, pow-suc x e)
      (mul-mod_right m ((x % m) ^ e) x
        ∙ sym (mul-mod m ((x % m) ^ e) x)
        ∙ ap (λ t. t * x % m) (pow-mod m x e)
        ∙ mul-mod m (x ^ e) x)

pow_double : (x k : ℕ) → (x * x) ^ k ≡ x ^ (2 * k)
pow_double x zero = rw (pow-zero (x * x)) (sym (pow-zero x))
pow_double x (suc k) =
    let even : 2 * suc k ≡ suc (suc (2 * k)) = omega arith in
    rw (even, pow-suc x (suc (2 * k)), pow-suc x (2 * k), pow-suc (x * x) k, pow_double x k)
      (sym (mul_assoc (x ^ (2 * k)) x x))

-- The two rounds, by the lowest bit of the exponent.
even_round : (m r x e : ℕ) → e % 2 ≡ 0 → r * (x * x % m) ^ (e / 2) % m ≡ r * x ^ e % m
even_round m r x e even =
    let twice : 2 * (e / 2) ≡ e = omega arith in
    sym (mul-mod_right m r ((x * x % m) ^ (e / 2)))
    ∙ ap (λ t. r * t % m) (pow-mod m (x * x) (e / 2) ∙ ap (λ t. t % m) (pow_double x (e / 2)))
    ∙ mul-mod_right m r (x ^ (2 * (e / 2)))
    ∙ ap (λ t. r * x ^ t % m) twice

odd_round : (m r x e : ℕ) → e % 2 ≡ 1 → r * x % m * (x * x % m) ^ (e / 2) % m ≡ r * x ^ e % m
odd_round m r x e odd =
    let less : (e - 1) % 2 ≡ 0 = omega arith in
    let half : (e - 1) / 2 ≡ e / 2 = omega arith in
    let next : suc (e - 1) ≡ e = omega arith in
    mul-mod m (r * x) ((x * x % m) ^ (e / 2))
    ∙ ap (λ t. r * x * (x * x % m) ^ t % m) (sym half)
    ∙ even_round m (r * x) x (e - 1) less
    ∙ ap (λ t. t % m)
        (mul_assoc r x (x ^ (e - 1))
          ∙ ap (λ t. r * t) (mul_comm x (x ^ (e - 1)) ∙ sym (pow-suc x (e - 1)))
          ∙ ap (λ t. r * x ^ t) next)

inv_loop-power :
    (rounds r x e : ℕ) → e < 2 ^ rounds → r < prime → inv_loop rounds r x e ≡ r * x ^ e % prime
unfolding inv_loop mul mod_prime
inv_loop-power zero r x e h b =
    let none_left : e ≡ 0 = omega arith in
    rw (none_left, pow-zero x)
      (sym (mod-eq_of_lt (omega arith)) ∙ ap (λ t. t % prime) (omega arith))
inv_loop-power (suc rounds) r x e h b =
    let smaller : e / 2 < 2 ^ rounds = omega (arith, pow-suc 2 rounds) in
    let bit = bit_and_ones 1 e 1 refl in
    elim (Bool-cases (ltb 0 e)) [
      | inl more ↦ rw more (elim (Bool-cases (bit_and e 1 == 0)) [
        | inl even ↦ rw even (
            inv_loop-power rounds r (x * x % prime) (e / 2) smaller b
            ∙ even_round prime r x e (ground arith))
        | inr odd ↦ rw odd (
            inv_loop-power rounds (r * x % prime) (x * x % prime) (e / 2) smaller
              (mod-lt (r * x) (omega arith))
            ∙ odd_round prime r x e (ground arith))
      ])
      | inr over ↦
          let none_left : e ≡ 0 = ground arith in
          rw (over, none_left, pow-zero x)
            (sym (mod-eq_of_lt b) ∙ ap (λ t. t % prime) (omega arith))
    ]

pub run-power : (rounds a e : ℕ) → e < 2 ^ rounds → inv_loop rounds 1 (a % prime) e ≡ a ^ e % prime
run-power rounds a e h =
    inv_loop-power rounds 1 (a % prime) e h (omega arith)
    ∙ ap (λ t. t % prime) (omega arith)
    ∙ pow-mod prime a e

times_power : (m a e : ℕ) → a * (a ^ e % m) % m ≡ a ^ suc e % m
times_power m a e =
    mul-mod_right m a (a ^ e) ∙ ap (λ t. t % m) (mul_comm a (a ^ e) ∙ sym (pow-suc a e))

-- Whatever the number of rounds from 255 on, the loop of the inversion gives the same, so that the
-- rounds of the model are enough; and the product of a number and its inverse is the power of the
-- number whose exponent is the prime less one.
pub inv-power :
    (a rounds : ℕ)
    → 255 ≤ rounds
    → (inv_loop rounds 1 (mod_prime (pos a)) (prime - 2) ≡ inv a)
      × (mul a (inv a) ≡ a ^ (prime - 1) % prime)
unfolding inv mul mod_prime
inv-power a rounds h =
    let fits : prime - 2 < 2 ^ rounds =
      omega (arith, pow-le-pow_right {n = 2} (omega arith) {i = 255} {j = rounds} h) in
    let short = run-power 255 a (prime - 2) (omega arith) in
    (
      run-power rounds a (prime - 2) fits ∙ sym short,
      ap (λ t. a * t % prime) short ∙ times_power prime a (prime - 2),
    )
