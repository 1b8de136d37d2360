-- ===== src/Crypto/X25519/Steps.antt =====
-- lib/x25519.js: the field operations of a round, against the formulas for twice a point and for the
-- sum of two points on the curve y² = x³ + 486662 x² + x, in projective coordinates.
use new_zone_reference.Prelude.{
  ℕ, ◌+◌, ◌-◌, ◌*◌, ◌%◌, ◌≡◌, ap, sym, ◌∙◌, arith, leb, inl, inr, Bool-cases, refl,
}
use native.Mathlib.Nat.{mul_comm, add_comm}
use new_zone_reference.Crypto.X25519.{prime, add, sub, mul, a24, Points, ladder_step}
use new_zone_reference.Crypto.X25519.Residues.{
  StandsFor, number-StandsFor, add-StandsFor, sub-StandsFor, mul-StandsFor, same_difference,
  remainder_of_difference, mul-lt,
}

-- The distance of two numbers.
unfoldable pub apart : ℕ → ℕ → ℕ
apart a b = a - b + (b - a)

-- Twice the point with the coordinates x and z.
unfoldable pub doubled_x : ℕ → ℕ → ℕ
doubled_x x z = apart (x * x) (z * z) * apart (x * x) (z * z) % prime

unfoldable pub doubled_z : ℕ → ℕ → ℕ
doubled_z x z = 4 * (x * z) * (x * x + 486662 * (x * z) + z * z) % prime

-- The sum of the points (x, z) and (x', z'), whose difference has the coordinates x1 and 1.
unfoldable pub sum_x : ℕ → ℕ → ℕ → ℕ → ℕ
sum_x x z x' z' = 4 * (apart (x' * x) (z' * z) * apart (x' * x) (z' * z)) % prime

unfoldable pub sum_z : ℕ → ℕ → ℕ → ℕ → ℕ → ℕ
sum_z x1 x z x' z' = 4 * x1 * (apart (x' * z) (z' * x) * apart (x' * z) (z' * x)) % prime

square_gap : (a d : ℕ) → d * d + 2 * (a * (a + d)) ≡ a * a + (a + d) * (a + d)
square_gap a d = omega arith

apart_square : (a b : ℕ) → apart a b * apart a b + 2 * (a * b) ≡ a * a + b * b
unfolding apart
apart_square a b = elim (Bool-cases (leb a b)) [
  | inl h ↦
      let gap : a - b + (b - a) ≡ b - a = ground arith in
      let whole : a + (b - a) ≡ b = ground arith in
      rw gap (
        ap (λ t. (b - a) * (b - a) + 2 * (a * t)) (sym whole)
        ∙ square_gap a (b - a)
        ∙ ap (λ t. a * a + t * t) whole)
  | inr h ↦
      let gap : a - b + (b - a) ≡ a - b = ground arith in
      let whole : b + (a - b) ≡ a = ground arith in
      rw gap (
        ap (λ t. (a - b) * (a - b) + 2 * (t * b)) (sym whole)
        ∙ ap (λ t. (a - b) * (a - b) + 2 * t) (mul_comm (b + (a - b)) b)
        ∙ square_gap b (a - b)
        ∙ add_comm (b * b) _
        ∙ ap (λ t. t * t + b * b) whole)
]

four_apart : (a b : ℕ) → 4 * (apart a b * apart a b) + 8 * (a * b) ≡ 4 * (a * a + b * b)
four_apart a b = omega (arith, apart_square a b)

square-StandsFor :
    {n : ℕ} (a b : ℕ)
    → StandsFor n (2 * a) (2 * b)
    → StandsFor (mul n n) (4 * (a * a + b * b)) (8 * (a * b))
square-StandsFor a b h = same_difference (mul-StandsFor h h) (omega arith)

four_times : (k s : ℕ) → 4 * k * s ≡ k * (4 * s)
four_times k s = omega arith

times_sum : (k a b : ℕ) → k * a + k * b ≡ k * (a + b)
times_sum k a b = omega arith

module _ (x z : ℕ) where
  plus-StandsFor : StandsFor (add x z) (x + z) 0
  plus-StandsFor =
      same_difference (add-StandsFor (number-StandsFor x) (number-StandsFor z)) (omega arith)

  minus-StandsFor : StandsFor (sub x z) x z
  minus-StandsFor =
      same_difference (sub-StandsFor (number-StandsFor x) (number-StandsFor z)) (omega arith)

  aa-StandsFor : StandsFor (mul (add x z) (add x z)) (x * x + 2 * (x * z) + z * z) 0
  aa-StandsFor = same_difference (mul-StandsFor plus-StandsFor plus-StandsFor) (omega arith)

  bb-StandsFor : StandsFor (mul (sub x z) (sub x z)) (x * x + z * z) (2 * (x * z))
  bb-StandsFor = same_difference (mul-StandsFor minus-StandsFor minus-StandsFor) (omega arith)

  e-StandsFor : StandsFor (sub (mul (add x z) (add x z)) (mul (sub x z) (sub x z))) (4 * (x * z)) 0
  e-StandsFor = same_difference (sub-StandsFor aa-StandsFor bb-StandsFor) (omega arith)

  doubled_x_lem : mul (mul (add x z) (add x z)) (mul (sub x z) (sub x z)) ≡ doubled_x x z
  unfolding doubled_x
  doubled_x_lem =
      remainder_of_difference _ (mul-lt _ _)
        (same_difference {c = x * x * (x * x) + z * z * (z * z)} {d = 2 * (x * x * (z * z))}
          (mul-StandsFor aa-StandsFor bb-StandsFor) (omega arith))
        (apart_square (x * x) (z * z))

  doubled_z_lem :
      let e = sub (mul (add x z) (add x z)) (mul (sub x z) (sub x z)) in
      mul e (add (mul (add x z) (add x z)) (mul a24 e)) ≡ doubled_z x z
  unfolding doubled_z
  doubled_z_lem =
      let scaled =
        same_difference {c = 121665 * (4 * (x * z))} {d = 0}
          (mul-StandsFor (number-StandsFor a24) e-StandsFor) (omega arith) in
      let inner =
        same_difference {c = x * x + 486662 * (x * z) + z * z} {d = 0}
          (add-StandsFor aa-StandsFor scaled) (omega arith) in
      remainder_of_difference _ (mul-lt _ _)
        (same_difference {c = 4 * (x * z) * (x * x + 486662 * (x * z) + z * z)} {d = 0}
          (mul-StandsFor e-StandsFor inner) (omega arith))
        (omega arith)

  module _ (x' z' : ℕ) where
    da-StandsFor : StandsFor (mul (sub x' z') (add x z)) (x' * (x + z)) (z' * (x + z))
    da-StandsFor =
        same_difference
          (mul-StandsFor
            (same_difference {c = x'} {d = z'}
              (sub-StandsFor (number-StandsFor x') (number-StandsFor z')) (omega arith))
            plus-StandsFor)
          (omega arith)

    cb-StandsFor : StandsFor (mul (add x' z') (sub x z)) ((x' + z') * x) ((x' + z') * z)
    cb-StandsFor =
        same_difference
          (mul-StandsFor
            (same_difference {c = x' + z'} {d = 0}
              (add-StandsFor (number-StandsFor x') (number-StandsFor z')) (omega arith))
            minus-StandsFor)
          (omega arith)

    together-StandsFor :
        StandsFor
          (add (mul (sub x' z') (add x z)) (mul (add x' z') (sub x z)))
          (2 * (x' * x))
          (2 * (z' * z))
    together-StandsFor = same_difference (add-StandsFor da-StandsFor cb-StandsFor) (omega arith)

    between-StandsFor :
        StandsFor
          (sub (mul (sub x' z') (add x z)) (mul (add x' z') (sub x z)))
          (2 * (x' * z))
          (2 * (z' * x))
    between-StandsFor = same_difference (sub-StandsFor da-StandsFor cb-StandsFor) (omega arith)

    sum_x_lem :
        let both = add (mul (sub x' z') (add x z)) (mul (add x' z') (sub x z)) in
        mul both both ≡ sum_x x z x' z'
    unfolding sum_x
    sum_x_lem =
        remainder_of_difference _ (mul-lt _ _)
          (square-StandsFor (x' * x) (z' * z) together-StandsFor) (four_apart (x' * x) (z' * z))

    sum_z_lem :
        (x1 : ℕ)
        → let gap = sub (mul (sub x' z') (add x z)) (mul (add x' z') (sub x z)) in
          mul x1 (mul gap gap) ≡ sum_z x1 x z x' z'
    unfolding sum_z
    sum_z_lem x1 =
        let a = x' * z in
        let b = z' * x in
        remainder_of_difference _ (mul-lt _ _)
          (same_difference {c = x1 * (4 * (a * a + b * b))} {d = x1 * (8 * (a * b))}
            (mul-StandsFor (number-StandsFor x1) (square-StandsFor a b between-StandsFor))
            (omega arith))
          (ap (λ t. t + x1 * (8 * (a * b))) (four_times x1 (apart a b * apart a b))
            ∙ times_sum x1 (4 * (apart a b * apart a b)) (8 * (a * b))
            ∙ ap (λ t. x1 * t) (four_apart a b))

-- The field operations of a round give twice the first point and the sum of the two points.
pub ladder_step_lem :
    (x1 : ℕ) (p : Points)
    → ladder_step x1 p ≡ record {
      x2 = doubled_x p.x2 p.z2;
      z2 = doubled_z p.x2 p.z2;
      x3 = sum_x p.x2 p.z2 p.x3 p.z3;
      z3 = sum_z x1 p.x2 p.z2 p.x3 p.z3;
    }
unfolding ladder_step
ladder_step_lem x1 p =
    rw
      (
        doubled_x_lem p.x2 p.z2,
        doubled_z_lem p.x2 p.z2,
        sum_x_lem p.x2 p.z2 p.x3 p.z3,
        sum_z_lem p.x2 p.z2 p.x3 p.z3 x1,
      )
      refl
