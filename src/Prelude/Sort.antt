-- ===== src/Prelude/Sort.antt =====
-- `Array.prototype.sort` by a numeric field: stable and ascending.
use Prim.Native.Nat.{ℕ, ◌+◌, ◌≤◌}
use mathlib.Core.Path.{◌≡◌, refl}
use mathlib.Core.Logic.{inl, inr}
use mathlib.Core.List.{List, [], ◌∷◌, ◌++◌, Perm}
use mathlib.Core.List.Perm
use native.Mathlib.Omega.{arith}
use new_zone_reference.Prelude.Tests.{leb, Bool-cases, if◌then◌else◌}
use new_zone_reference.Prelude.Lists.{length}

module _ {ℓ} {A : Type ℓ} where
  abbrev pub All : (A → Type 0) → List A → Type 0
  All P [] = Unit
  All P (x ∷ xs) = P x × All P xs

module _ {ℓ} {A : Type ℓ} (key : A → ℕ) where
  unfoldable pub insert : A → List A → List A
  insert x [] = x ∷ []
  insert x (y ∷ ys) = if leb (key x) (key y) then x ∷ y ∷ ys else y ∷ insert x ys

  unfoldable pub sort_by : List A → List A
  sort_by [] = []
  sort_by (x ∷ xs) = insert x (sort_by xs)

  abbrev pub IsSorted : List A → Type 0
  IsSorted [] = Unit
  IsSorted (x ∷ xs) = All (λ y. key x ≤ key y) xs × IsSorted xs

  pub insert-perm : (x : A) (xs : List A) → Perm (insert x xs) (x ∷ xs)
  unfolding insert
  insert-perm x [] = Perm.refl (x ∷ [])
  insert-perm x (y ∷ ys) = elim (Bool-cases (leb (key x) (key y))) [
    | inl le ↦ rw le (Perm.refl (x ∷ y ∷ ys))
    | inr gt ↦ rw gt (Perm.trans (Perm.cons y (insert-perm x ys)) (Perm.swap x y ys))
  ]

  pub sort_by-perm : (xs : List A) → Perm (sort_by xs) xs
  unfolding sort_by
  sort_by-perm [] = Perm.refl []
  sort_by-perm (x ∷ xs) = Perm.trans (insert-perm x (sort_by xs)) (Perm.cons x (sort_by-perm xs))

  insert-All : (P : A → Type 0) (x : A) (xs : List A) → P x → All P xs → All P (insert x xs)
  unfolding insert
  insert-All P x [] h t = (h, tt)
  insert-All P x (y ∷ ys) h t = elim (Bool-cases (leb (key x) (key y))) [
    | inl le ↦ rw le (h, t)
    | inr gt ↦ rw gt (t.0, insert-All P x ys h t.1)
  ]

  All-le : (a b : ℕ) (xs : List A) → a ≤ b → All (λ y. b ≤ key y) xs → All (λ y. a ≤ key y) xs
  All-le a b [] h t = tt
  All-le a b (x ∷ xs) h t = (omega arith, All-le a b xs h t.1)

  insert-IsSorted : (x : A) (xs : List A) → IsSorted xs → IsSorted (insert x xs)
  unfolding insert
  insert-IsSorted x [] s = (tt, tt)
  insert-IsSorted x (y ∷ ys) s = elim (Bool-cases (leb (key x) (key y))) [
    | inl le ↦ rw le ((ground arith, All-le (key x) (key y) ys (ground arith) s.0), s)
    | inr gt ↦
        rw gt (insert-All (λ z. key y ≤ key z) x ys (ground arith) s.0, insert-IsSorted x ys s.1)
  ]

  pub sort_by-IsSorted : (xs : List A) → IsSorted (sort_by xs)
  unfolding sort_by
  sort_by-IsSorted [] = tt
  sort_by-IsSorted (x ∷ xs) = insert-IsSorted x (sort_by xs) (sort_by-IsSorted xs)

  pub sort_by-All : (P : A → Type 0) (xs : List A) → All P xs → All P (sort_by xs)
  unfolding sort_by
  sort_by-All P [] h = tt
  sort_by-All P (x ∷ xs) h = insert-All P x (sort_by xs) h.0 (sort_by-All P xs h.1)

  length-insert : (x : A) (xs : List A) → length (insert x xs) ≡ length xs + 1
  unfolding insert
  length-insert x [] = omega arith
  length-insert x (y ∷ ys) = ground (arith, length-insert x ys)

  pub length-sort_by : (xs : List A) → length (sort_by xs) ≡ length xs
  unfolding sort_by
  length-sort_by [] = refl
  length-sort_by (x ∷ xs) = omega (arith, length-insert x (sort_by xs), length-sort_by xs)

  -- What is in order already stays as it is.
  insert_least : (x : A) (xs : List A) → All (λ y. key x ≤ key y) xs → insert x xs ≡ x ∷ xs
  unfolding insert
  insert_least x [] h = refl
  insert_least x (y ∷ ys) h = ground arith

  pub sort_by_of_IsSorted : (xs : List A) → IsSorted xs → sort_by xs ≡ xs
  unfolding sort_by
  sort_by_of_IsSorted [] s = refl
  sort_by_of_IsSorted (x ∷ xs) s = rw (sort_by_of_IsSorted xs s.1) (insert_least x xs s.0)

  All-insert : (P : A → Type 0) (x : A) (xs : List A) → All P (insert x xs) → P x × All P xs
  unfolding insert
  All-insert P x [] h = h
  All-insert P x (y ∷ ys) h = elim (Bool-cases (leb (key x) (key y))) [
    | inl le ↦ let h' : All P (x ∷ y ∷ ys) = rw le at h in h'
    | inr gt ↦
        let h' : All P (y ∷ insert x ys) = rw gt at h in
        let (hx, hys) = All-insert P x ys h'.1 in (hx, (h'.0, hys))
  ]

  All-sort_by : (P : A → Type 0) (xs : List A) → All P (sort_by xs) → All P xs
  unfolding sort_by
  All-sort_by P [] h = tt
  All-sort_by P (x ∷ xs) h =
      let (hx, hxs) = All-insert P x (sort_by xs) h in (hx, All-sort_by P xs hxs)

  -- The first element of the sorted list has the least key of all.
  pub sort_by_least :
      (x : A) (xs rest : List A) → sort_by xs ≡ x ∷ rest → All (λ y. key x ≤ key y) xs
  sort_by_least x xs rest e =
      let s : IsSorted (x ∷ rest) = rw e at (sort_by-IsSorted xs) in
      All-sort_by (λ y. key x ≤ key y) xs (rw e (omega arith, s.0))

  pub sort_by_first :
      (P : A → Type 0) (x : A) (xs rest : List A) → sort_by xs ≡ x ∷ rest → All P xs → P x
  sort_by_first P x xs rest e h = let h' : All P (x ∷ rest) = rw e at (sort_by-All P xs h) in h'.0

  insert-append_greatest :
      (y x : A) (xs : List A) → key y ≤ key x → insert y (xs ++ x ∷ []) ≡ insert y xs ++ x ∷ []
  unfolding insert
  insert-append_greatest y x [] h = ground arith
  insert-append_greatest y x (z ∷ xs) h = ground (arith, insert-append_greatest y x xs)

  -- A last element that is nowhere exceeded stays the last.
  pub sort_by-append_greatest :
      (xs : List A) (x : A)
      → All (λ y. key y ≤ key x) xs
      → sort_by (xs ++ x ∷ []) ≡ sort_by xs ++ x ∷ []
  unfolding sort_by insert
  sort_by-append_greatest [] x h = refl
  sort_by-append_greatest (y ∷ xs) x h =
      rw (sort_by-append_greatest xs x h.1) (insert-append_greatest y x (sort_by xs) h.0)
