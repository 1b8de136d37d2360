-- ===== src/Crypto/Channel/Contexts.antt =====
-- lib/secureChannel.js: the key contexts of epochs and directions.
use new_zone_reference.Prelude.{
  ℕ, zero, suc, ◌+◌, ◌-◌, ◌*◌, ◌/◌, ◌%◌, ◌<◌, ◌≡◌, refl, sym, ap, ◌∙◌, ◌≢◌, inl, inr, [], ◌∷◌, ◌++◌,
  arith, ltb, Bool-cases,
}
use new_zone_reference.Crypto.Bytes.{Bytes}
use new_zone_reference.Crypto.Channel.{
  decimal_loop, decimal, Direction, alice_to_bob, bob_to_alice, direction_text, epoch_text,
  epoch_context,
}

-- The number that decimal digits stand for.
parse : ℕ → Bytes → ℕ
parse acc [] = acc
parse acc (d ∷ ds) = parse (acc * 10 + (d - 48)) ds

parse-append : (acc : ℕ) (xs ys : Bytes) → parse acc (xs ++ ys) ≡ parse (parse acc xs) ys
unfolding parse
parse-append acc [] ys = refl
parse-append acc (x ∷ xs) ys = parse-append (acc * 10 + (x - 48)) xs ys

parse-decimal_loop : (fuel n : ℕ) → n < fuel → parse 0 (decimal_loop fuel n) ≡ n
unfolding decimal_loop
parse-decimal_loop zero n h = absurd (omega arith)
parse-decimal_loop (suc fuel) n h = elim (Bool-cases (ltb n 10)) [
  | inl small ↦ rw small (unfold parse in omega arith)
  | inr large ↦ rw large (
      parse-append 0 (decimal_loop fuel (n / 10)) ((48 + n % 10) ∷ [])
      ∙ rw (parse-decimal_loop fuel (n / 10) (ground arith)) (unfold parse in omega arith))
]

parse-decimal : (n : ℕ) → parse 0 (decimal n) ≡ n
unfolding decimal
parse-decimal n = parse-decimal_loop (suc n) n (omega arith)

-- No digit is a slash.
abbrev HasNoSlash : Bytes → Type 0
HasNoSlash [] = Unit
HasNoSlash (b ∷ bs) = (b ≢ 47) × HasNoSlash bs

HasNoSlash-append : (xs ys : Bytes) → HasNoSlash xs → HasNoSlash ys → HasNoSlash (xs ++ ys)
HasNoSlash-append [] ys hx hy = hy
HasNoSlash-append (x ∷ xs) ys hx hy = (hx.0, HasNoSlash-append xs ys hx.1 hy)

decimal_loop-HasNoSlash : (fuel n : ℕ) → HasNoSlash (decimal_loop fuel n)
unfolding decimal_loop
decimal_loop-HasNoSlash zero n = tt
decimal_loop-HasNoSlash (suc fuel) n = elim (Bool-cases (ltb n 10)) [
  | inl small ↦ rw small (omega arith, tt)
  | inr large ↦ rw large (
      HasNoSlash-append (decimal_loop fuel (n / 10)) ((48 + n % 10) ∷ [])
        (decimal_loop-HasNoSlash fuel (n / 10)) (omega arith, tt))
]

split_at_slash :
    (xs ys : Bytes) {r s : Bytes}
    → HasNoSlash xs
    → HasNoSlash ys
    → xs ++ 47 ∷ r ≡ ys ++ 47 ∷ s
    → (xs ≡ ys) × (r ≡ s)
split_at_slash [] [] hx hy e = (refl, cc)
split_at_slash [] (y ∷ ys) hx hy e = absurd (hy.0 (cc))
split_at_slash (x ∷ xs) [] hx hy e = absurd (hx.0 (cc))
split_at_slash (x ∷ xs) (y ∷ ys) hx hy e =
    let (same, rest) = split_at_slash xs ys hx.1 hy.1 (cc) in (cc, rest)

append-cancel : (xs : Bytes) {ys zs : Bytes} → xs ++ ys ≡ xs ++ zs → ys ≡ zs
append-cancel [] h = h
append-cancel (x ∷ xs) h = append-cancel xs (cc)

abbrev first : Bytes → ℕ
first [] = 0
first (b ∷ bs) = b

direction_text-injective : (d e : Direction) → direction_text d ≡ direction_text e → d ≡ e
direction_text-injective alice_to_bob alice_to_bob h = refl
direction_text-injective alice_to_bob bob_to_alice h = absurd (omega (arith, ap first h))
direction_text-injective bob_to_alice alice_to_bob h = absurd (omega (arith, ap first h))
direction_text-injective bob_to_alice bob_to_alice h = refl

-- Under one base context, two key contexts are the same only for the same epoch and direction.
pub epoch_context-injective :
    (base : Bytes) (m n : ℕ) (d e : Direction)
    → epoch_context base m d ≡ epoch_context base n e
    → (m ≡ n) × (d ≡ e)
unfolding epoch_context decimal
epoch_context-injective base m n d e h =
    let tails = append-cancel epoch_text (append-cancel base h) in
    let (digits, rest) =
      split_at_slash (decimal m) (decimal n) (decimal_loop-HasNoSlash (suc m) m)
        (decimal_loop-HasNoSlash (suc n) n) tails in
    (
      sym (parse-decimal m) ∙ ap (parse 0) digits ∙ parse-decimal n,
      direction_text-injective d e rest,
    )
