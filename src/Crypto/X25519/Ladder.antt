-- ===== src/Crypto/X25519/Ladder.antt =====
-- lib/x25519.js: the ladder, which postpones each exchange, against double-and-add on a pair of points
-- of the curve, by the formulas of Steps.
use Prim.Native.Nat.{bit_and, bit_xor}
use new_zone_reference.Prelude.{
  ℕ, zero, suc, ◌*◌, ◌-◌, ◌/◌, ◌%◌, ◌^◌, ◌<◌, ◌≡◌, refl, ap, ◌∙◌, arith,
}
use new_zone_reference.Crypto.Bytes.Bits.{bit_and_ones}
use new_zone_reference.Crypto.X25519.Inverse.{run-power}
use new_zone_reference.Crypto.X25519.Steps.{doubled_x, doubled_z, sum_x, sum_z, ladder_step_lem}
use new_zone_reference.Crypto.X25519.{
  prime, mod_prime, Points, swap_if, ladder_step, ladder_loop, start, montgomery_ladder, mul, inv,
}

-- One round for a bit, on two points that differ by the base point: the first point is doubled for 0,
-- the second one otherwise, and the other point becomes their sum.
unfoldable pub double_and_add : ℕ → ℕ → Points → Points
double_and_add x1 zero p = record {
  x2 = doubled_x p.x2 p.z2;
  z2 = doubled_z p.x2 p.z2;
  x3 = sum_x p.x2 p.z2 p.x3 p.z3;
  z3 = sum_z x1 p.x2 p.z2 p.x3 p.z3;
}
double_and_add x1 (suc bit) p = record {
  x2 = sum_x p.x3 p.z3 p.x2 p.z2;
  z2 = sum_z x1 p.x3 p.z3 p.x2 p.z2;
  x3 = doubled_x p.x3 p.z3;
  z3 = doubled_z p.x3 p.z3;
}

-- The rounds for the bits `t - 1` down to 0 of the scalar.
unfoldable pub reference : ℕ → ℕ → ℕ → Points → Points
reference k x1 zero p = p
reference k x1 (suc t) p = reference k x1 t (double_and_add x1 (k / 2 ^ t % 2) p)

swap_if_xor :
    (a b : ℕ) (p : Points) → a < 2 → b < 2 → swap_if (bit_xor a b) p ≡ swap_if b (swap_if a p)
unfolding swap_if
swap_if_xor zero zero p ha hb = refl
swap_if_xor zero (suc zero) p ha hb = refl
swap_if_xor (suc zero) zero p ha hb = refl
swap_if_xor (suc zero) (suc zero) p ha hb = refl
swap_if_xor (suc (suc a)) b p ha hb = absurd (omega arith)
swap_if_xor a (suc (suc b)) p ha hb = absurd (omega arith)

-- A round of the ladder between two exchanges is a round of double-and-add.
swapped_round :
    (x1 kt : ℕ) (p : Points)
    → kt < 2
    → swap_if kt (ladder_step x1 (swap_if kt p)) ≡ double_and_add x1 kt p
unfolding swap_if double_and_add
swapped_round x1 zero p h = ladder_step_lem x1 p
swapped_round x1 (suc zero) p h = rw (ladder_step_lem x1 (swap_if 1 p)) refl
swapped_round x1 (suc (suc kt)) p h = absurd (omega arith)

ladder_loop-reference :
    (k x1 t swap : ℕ) (p : Points)
    → swap < 2
    → ladder_loop k x1 t swap p ≡ reference k x1 t (swap_if swap p)
unfolding ladder_loop reference
ladder_loop-reference k x1 zero swap p h = refl
ladder_loop-reference k x1 (suc t) swap p h =
    let bit : bit_and (k / 2 ^ t) 1 ≡ k / 2 ^ t % 2 = bit_and_ones 1 (k / 2 ^ t) 1 (omega arith) in
    let below : k / 2 ^ t % 2 < 2 = omega arith in
    rw bit (
      ladder_loop-reference k x1 t (k / 2 ^ t % 2)
        (ladder_step x1 (swap_if (bit_xor swap (k / 2 ^ t % 2)) p)) below
      ∙ ap (λ q. reference k x1 t (swap_if (k / 2 ^ t % 2) (ladder_step x1 q)))
          (swap_if_xor swap (k / 2 ^ t % 2) p h below)
      ∙ ap (reference k x1 t) (swapped_round x1 (k / 2 ^ t % 2) (swap_if swap p) below))

-- The ladder computes what double-and-add computes from the highest bit of the scalar down, for the 255
-- lowest bits, with the projective formulas of the curve y² = x³ + 486662 x² + x for twice a point and
-- for the sum of two points: the first coordinate of the point by the second one to the power of the
-- prime less two, modulo the prime.
pub montgomery_ladder-reference :
    (k u : ℕ)
    → montgomery_ladder k u
      ≡ (let p = reference k u 255 (start u) in p.x2 * (p.z2 ^ (prime - 2) % prime) % prime)
unfolding montgomery_ladder mul mod_prime inv
montgomery_ladder-reference k u =
    ap (λ (p : Points). mul p.x2 (inv p.z2))
      (ladder_loop-reference k u 255 0 (start u) (omega arith)
        ∙ ap (reference k u 255) (unfold swap_if in refl))
    ∙ (let p = reference k u 255 (start u) in
        ap (λ t. p.x2 * t % prime) (run-power 255 p.z2 (prime - 2) (omega arith)))
