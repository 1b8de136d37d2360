-- ===== src/Prelude/Lists.antt =====
-- Lists measured by native numbers, under the library's names, and the array operations of the
-- source: `slice(-n)`, and `push` followed by a `shift` of what exceeds a bound.
use Prim.Native.Nat.{ℕ, zero, suc, ◌+◌, ◌-◌, ◌≤◌, min}
use mathlib.Core.Path.{◌≡◌, refl, ap, sym, ◌∙◌}
use mathlib.Core.Logic.{inl, inr}
use native.Mathlib.Nat.{zero-add, suc-add}
use mathlib.Core.Bool.{Bool, true}
use mathlib.Core.List.{List, [], ◌∷◌, ◌++◌, append_assoc, append-nil, map}
use native.Mathlib.Omega.{arith}
use new_zone_reference.Prelude.Tests.{ltb, Bool-cases, if◌then◌else◌}

module _ {ℓ} {A : Type ℓ} where
  abbrev pub length : List A → ℕ
  length [] = 0
  length (x ∷ xs) = suc (length xs)

  pub length-append : (xs ys : List A) → length (xs ++ ys) ≡ length xs + length ys
  length-append [] ys = omega arith
  length-append (x ∷ xs) ys = omega (arith, length-append xs ys)

  abbrev pub take : ℕ → List A → List A
  take zero xs = []
  take (suc n) [] = []
  take (suc n) (x ∷ xs) = x ∷ take n xs

  abbrev pub drop : ℕ → List A → List A
  drop zero xs = xs
  drop (suc n) [] = []
  drop (suc n) (x ∷ xs) = drop n xs

  abbrev pub replicate : ℕ → A → List A
  replicate zero a = []
  replicate (suc n) a = a ∷ replicate n a

  abbrev pub filter : (A → Bool) → List A → List A
  filter p [] = []
  filter p (x ∷ xs) = let rest = filter p xs in if p x then x ∷ rest else rest

  pub length-take : (n : ℕ) (xs : List A) → length (take n xs) ≡ min n (length xs)
  length-take zero xs = omega arith
  length-take (suc n) [] = omega arith
  length-take (suc n) (x ∷ xs) = omega (arith, length-take n xs)

  pub length-drop : (n : ℕ) (xs : List A) → length (drop n xs) ≡ length xs - n
  length-drop zero xs = omega arith
  length-drop (suc n) [] = omega arith
  length-drop (suc n) (x ∷ xs) = omega (arith, length-drop n xs)

  pub length-replicate : (n : ℕ) (a : A) → length (replicate n a) ≡ n
  length-replicate zero a = refl
  length-replicate (suc n) a = ap suc (length-replicate n a)

  pub length-filter : (p : A → Bool) (xs : List A) → length (filter p xs) ≤ length xs
  length-filter p [] = omega arith
  length-filter p (x ∷ xs) = ground (arith, length-filter p xs)

  pub take-append-drop : (n : ℕ) (xs : List A) → take n xs ++ drop n xs ≡ xs
  take-append-drop zero xs = refl
  take-append-drop (suc n) [] = refl
  take-append-drop (suc n) (x ∷ xs) = ap (◌∷◌ x) (take-append-drop n xs)

  pub take-append : (xs ys : List A) → take (length xs) (xs ++ ys) ≡ xs
  take-append [] ys = refl
  take-append (x ∷ xs) ys = ap (◌∷◌ x) (take-append xs ys)

  pub drop-append : (xs ys : List A) → drop (length xs) (xs ++ ys) ≡ ys
  drop-append [] ys = refl
  drop-append (x ∷ xs) ys = drop-append xs ys

  pub take_of_le : (n : ℕ) (xs : List A) → length xs ≤ n → take n xs ≡ xs
  take_of_le zero [] h = refl
  take_of_le zero (x ∷ xs) h = absurd (omega arith)
  take_of_le (suc n) [] h = refl
  take_of_le (suc n) (x ∷ xs) h = ap (◌∷◌ x) (take_of_le n xs (omega arith))

  pub drop-append_of_le :
      (n : ℕ) (xs ys : List A) → n ≤ length xs → drop n (xs ++ ys) ≡ drop n xs ++ ys
  drop-append_of_le zero xs ys h = refl
  drop-append_of_le (suc n) [] ys h = absurd (omega arith)
  drop-append_of_le (suc n) (x ∷ xs) ys h = drop-append_of_le n xs ys (omega arith)

  pub drop-nil : (n : ℕ) → drop n [] ≡ []
  drop-nil zero = refl
  drop-nil (suc n) = refl

  pub drop-drop : (m n : ℕ) (xs : List A) → drop m (drop n xs) ≡ drop (n + m) xs
  drop-drop m zero xs = rw zero-add
  drop-drop m (suc n) [] = rw suc-add (drop-nil m)
  drop-drop m (suc n) (x ∷ xs) = rw suc-add (drop-drop m n xs)

  -- The last `n` elements, oldest first.
  unfoldable pub last : ℕ → List A → List A
  last n xs = drop (length xs - n) xs

  pub length-last : (n : ℕ) (xs : List A) → length (last n xs) ≡ min n (length xs)
  unfolding last
  length-last n xs = omega (arith, length-drop (length xs - n) xs)

  pub last_of_le : (n : ℕ) (xs : List A) → length xs ≤ n → last n xs ≡ xs
  unfolding last
  last_of_le n xs h = let e : length xs - n ≡ 0 = omega arith in rw e

  -- `a.push(x); if (a.length > max) a.shift();`
  unfoldable pub push_bounded : ℕ → A → List A → List A
  push_bounded max x xs =
      if ltb max (length (xs ++ x ∷ [])) then drop 1 (xs ++ x ∷ []) else xs ++ x ∷ []

  pub length-push_bounded :
      (max : ℕ) (x : A) (xs : List A)
      → length xs ≤ max
      → length (push_bounded max x xs) ≡ min max (length xs + 1)
  unfolding push_bounded
  length-push_bounded max x xs h =
      ground (arith, length-append xs (x ∷ []), length-drop 1 (xs ++ x ∷ []))

  -- A bounded buffer that holds the last `max` elements of a history does so after a push.
  pub push_bounded-last :
      (max : ℕ) (x : A) (h : List A) → push_bounded max x (last max h) ≡ last max (h ++ x ∷ [])
  unfolding last push_bounded
  push_bounded-last max x h = elim (Bool-cases (ltb (length h) max)) [
    | inl few ↦
        let k : length h - max ≡ 0 = ground arith in
        let k' : length (h ++ x ∷ []) - max ≡ 0 = ground (arith, length-append h (x ∷ [])) in
        rw (k, k') (ground (arith, length-append h (x ∷ [])))
    | inr full ↦
        let n = length h - max in
        let k' : length (h ++ x ∷ []) - max ≡ n + 1 = ground (arith, length-append h (x ∷ [])) in
        let split : drop n h ++ x ∷ [] ≡ drop n (h ++ x ∷ []) =
          sym (drop-append_of_le n h (x ∷ []) (omega arith)) in
        let long : ltb max (length (drop n h ++ x ∷ [])) ≡ true =
          ground (arith, length-append (drop n h) (x ∷ []), length-drop n h) in
        rw (long, k', split) (drop-drop 1 n (h ++ x ∷ []))
  ]

  pub last-last : (m n : ℕ) (xs : List A) → m ≤ n → last m (last n xs) ≡ last m xs
  unfolding last
  last-last m n xs h =
      let k = length xs - n in
      let e : k + (length (drop k xs) - m) ≡ length xs - m = omega (arith, length-drop k xs) in
      rw (drop-drop (length (drop k xs) - m) k xs) (ap (λ j. drop j xs) e)

  -- A sequence of pushes.
  unfoldable pub push_all : ℕ → List A → List A → List A
  push_all max [] buffer = buffer
  push_all max (x ∷ xs) buffer = push_all max xs (push_bounded max x buffer)

  pub push_all-append :
      (max : ℕ) (xs ys buffer : List A)
      → push_all max (xs ++ ys) buffer ≡ push_all max ys (push_all max xs buffer)
  unfolding push_all
  push_all-append max [] ys buffer = refl
  push_all-append max (x ∷ xs) ys buffer = push_all-append max xs ys (push_bounded max x buffer)

  pub push_all-last : (max : ℕ) (xs h : List A) → push_all max xs (last max h) ≡ last max (h ++ xs)
  unfolding push_all
  push_all-last max [] h = rw append-nil
  push_all-last max (x ∷ xs) h =
      rw (push_bounded-last max x h)
        (push_all-last max xs (h ++ x ∷ []) ∙ ap (last max) (append_assoc h (x ∷ []) xs))

pub length-map {ℓ κ} :
    {A : Type ℓ} {B : Type κ} (f : A → B) (xs : List A) → length (map f xs) ≡ length xs
length-map f [] = refl
length-map f (x ∷ xs) = ap suc (length-map f xs)
