-- ===== src/Crypto/X25519.antt =====
-- lib/x25519.js: Diffie-Hellman on Curve25519, with the Montgomery ladder of RFC 7748.
pub mod Ladder
pub mod Scalars
pub mod Inverse
pub mod Residues
pub mod Steps
use Prim.Native.Nat.{bit_or, bit_and, bit_xor}
use new_zone_reference.Prelude.{
  ℕ, zero, suc, ◌+◌, ◌-◌, ◌*◌, ◌/◌, ◌%◌, ◌^◌, ◌≤◌, ◌<◌, String, ◌≡◌, refl, sym, ap, ◌∙◌, ◌≢◌, ◌↔◌,
  ◌⊎◌, inl, inr, Bool, true, false, not, ◌&&◌, ◌||◌, Option, none, some, List, [], ◌∷◌, ◌++◌, map,
  append_assoc, append-nil, arith, str_eq, eq_iff, eq_refl, ltb, leb, ◌==◌, if◌then◌else◌, ltb→lt,
  lt→ltb, leb→le, ==_iff, Bool-cases, Option-cases, List-cases, length, take, drop, replicate,
  filter, length-append, length-take, length-drop, length-replicate, length-filter, length-map,
  take-append-drop, take-append, drop-append, take_of_le, drop-append_of_le, drop-drop, drop-nil,
  last, length-last, last_of_le, last-last, push_bounded, length-push_bounded, push_bounded-last,
  push_all, push_all-last,
}
use new_zone_reference.Prelude.Int.{ℤ, pos, negsuc, sub_ℕ}
use new_zone_reference.Crypto.Bytes.{Bytes, bytes_to_bigint_le, bigint_to_bytes_le}

-- `(1n << 255n) - 19n`
abbrev pub prime : ℕ
prime = 2 ^ 255 - 19

abbrev pub a24 : ℕ
a24 = 121665

-- `mod`, of an integer; the remainder of a negative number is negative or zero.
unfoldable pub mod_prime : ℤ → ℕ
mod_prime (pos n) = n % prime
mod_prime (negsuc n) = let r = suc n % prime in if r == 0 then 0 else prime - r

unfoldable pub add : ℕ → ℕ → ℕ
unfolding mod_prime
add a b = mod_prime (pos (a + b))

unfoldable pub sub : ℕ → ℕ → ℕ
unfolding mod_prime
sub a b = mod_prime (sub_ℕ a b)

unfoldable pub mul : ℕ → ℕ → ℕ
unfolding mod_prime
mul a b = mod_prime (pos (a * b))

-- The loop of `inv`. The exponent is halved in each round, so 255 rounds are enough for the prime.
unfoldable pub inv_loop : ℕ → ℕ → ℕ → ℕ → ℕ
unfolding mul
inv_loop zero r x e = r
inv_loop (suc rounds) r x e =
    let rest = inv_loop rounds (if bit_and e 1 == 0 then r else mul r x) (mul x x) (e / 2) in
    if ltb 0 e then rest else r

unfoldable pub inv : ℕ → ℕ
unfolding inv_loop
inv a = inv_loop 255 1 (mod_prime (pos a)) (prime - 2)

-- The four coordinates of the ladder.
pub record Points : Type 0 where
  pub x2 : ℕ
  pub z2 : ℕ
  pub x3 : ℕ
  pub z3 : ℕ

-- The two exchanges under `if (swap)`.
unfoldable pub swap_if : ℕ → Points → Points
swap_if swap p = if swap == 0 then p else record { x2 = p.x3; z2 = p.z3; x3 = p.x2; z3 = p.z2 }

-- The field operations of a round.
unfoldable pub ladder_step : ℕ → Points → Points
unfolding add sub mul
ladder_step x1 p =
    let a = add p.x2 p.z2 in
    let aa = mul a a in
    let b = sub p.x2 p.z2 in
    let bb = mul b b in
    let e = sub aa bb in
    let c = add p.x3 p.z3 in
    let d = sub p.x3 p.z3 in
    let da = mul d a in
    let cb = mul c b in
    record {
      x2 = mul aa bb;
      z2 = mul e (add aa (mul a24 e));
      x3 = mul (add da cb) (add da cb);
      z3 = mul x1 (mul (sub da cb) (sub da cb));
    }

-- The loop over the bits `t - 1` down to 0, and the exchange after it.
unfoldable pub ladder_loop : ℕ → ℕ → ℕ → ℕ → Points → Points
unfolding swap_if ladder_step
ladder_loop k x1 zero swap p = swap_if swap p
ladder_loop k x1 (suc t) swap p =
    let kt = bit_and (k / 2 ^ t) 1 in
    ladder_loop k x1 t kt (ladder_step x1 (swap_if (bit_xor swap kt) p))

unfoldable pub start : ℕ → Points
start u = record { x2 = 1; z2 = 0; x3 = u; z3 = 1 }

-- `montgomeryLadder`
unfoldable pub montgomery_ladder : ℕ → ℕ → ℕ
unfolding ladder_loop inv start
montgomery_ladder k u = let p = ladder_loop k u 255 0 (start u) in mul p.x2 (inv p.z2)

-- A write to one byte of an array; out of bounds it changes nothing.
unfoldable pub update : ℕ → (ℕ → ℕ) → Bytes → Bytes
update i f [] = []
update zero f (b ∷ bytes) = f b ∷ bytes
update (suc i) f (b ∷ bytes) = b ∷ update i f bytes

-- `clampScalarBytes`; `none` is the error about the length.
unfoldable pub clamp_scalar_bytes : Bytes → Option ℕ
unfolding update bytes_to_bigint_le
clamp_scalar_bytes k =
    if length k == 32
    then some (
        bytes_to_bigint_le
          (update 31 (λ b. bit_or (bit_and b 127) 64) (update 0 (λ b. bit_and b 248) k)))
    else none

-- `decodeUCoordinateBytes`
unfoldable pub decode_u_coordinate_bytes : Bytes → Option ℕ
unfolding update bytes_to_bigint_le
decode_u_coordinate_bytes u =
    if length u == 32 then some (bytes_to_bigint_le (update 31 (λ b. bit_and b 0x7f) u)) else none

infixl 5 ◌>>=◌
abbrev pub ◌>>=◌ {ℓ κ} : {A : Type ℓ} {B : Type κ} → Option A → (A → Option B) → Option B
none >>= f = none
some a >>= f = f a

-- `x25519`
unfoldable pub x25519 : Bytes → Bytes → Option Bytes
x25519 scalar_bytes u_bytes = do
  k ← clamp_scalar_bytes scalar_bytes
  u ← decode_u_coordinate_bytes u_bytes
  some (bigint_to_bytes_le (montgomery_ladder k u) 32)

-- `x25519Base`
unfoldable pub x25519_base : Bytes → Option Bytes
x25519_base scalar_bytes = do
  k ← clamp_scalar_bytes scalar_bytes
  some (bigint_to_bytes_le (montgomery_ladder k 9) 32)
