-- ===== src/Prelude/Texts.antt =====
-- The order of texts by their characters, as the sorting of names uses it.
use mathlib.Core.Path.{◌≡◌, refl, sym, ap, ◌∙◌}
use mathlib.Core.Bool.{Bool, true, false}
use Prim.Native.Nat.compare as compare_ℕ
use Prim.Native.Nat.{ℕ, zero, suc, Ordering, compare as compare_ℕ}
use Prim.Native.Char.{Char, code}
use Prim.Native.String.compare
use Prim.Native.String.{String, [], ◌∷◌, then, compare}
use native.Mathlib.Omega.{arith}
use text.Mathlib.Text.{is_le}
use text.Mathlib.TextEquality.{codes_equal}
use text.Mathlib.TextPositions.{compare_self}
use new_zone_reference.Prelude.Tests.{ltb, ◌==◌, if◌then◌else◌}

is_le-then :
    (m n : ℕ) (o : Ordering)
    → is_le ((then) (compare_ℕ m n) o)
      ≡ (if ltb m n then true else if m == n then is_le o else false)
is_le-then zero zero o = ap (λ q. is_le ((then) q o)) compare_ℕ.zero-zero ∙ ground arith
is_le-then zero (suc n) o = ap (λ q. is_le ((then) q o)) (compare_ℕ.zero-suc n) ∙ ground arith
is_le-then (suc m) zero o = ap (λ q. is_le ((then) q o)) (compare_ℕ.suc-zero m) ∙ ground arith
is_le-then (suc m) (suc n) o =
    ap (λ q. is_le ((then) q o)) (compare_ℕ.suc-suc m n) ∙ is_le-then m n o ∙ ground arith

-- `k` is not after `j`.
abbrev pub below : String → String → Bool
below s t = is_le (compare s t)

below-cons :
    (c d : Char) (s t : String)
    → below (c ∷ s) (d ∷ t)
      ≡ (if ltb (code c) (code d) then true else if code c == code d then below s t else false)
below-cons c d s t =
    ap is_le (compare.cons-cons c d s t) ∙ is_le-then (code c) (code d) (compare s t)

below-nil : (t : String) → below [] t ≡ true
below-nil [] = ap is_le compare.nil-nil
below-nil (d ∷ t) = ap is_le (compare.nil-cons d t)

below-cons_nil : (c : Char) (s : String) → below (c ∷ s) [] ≡ false
below-cons_nil c s = ap is_le (compare.cons-nil c s)

pub below_trans : (s t u : String) → below s t ≡ true → below t u ≡ true → below s u ≡ true
below_trans [] t u h k = below-nil u
below_trans (c ∷ s) [] u h k = ground (arith, below-cons_nil c s)
below_trans (c ∷ s) (d ∷ t) [] h k = ground (arith, below-cons_nil d t)
below_trans (c ∷ s) (d ∷ t) (e ∷ u) h k =
    ground (arith, below-cons c d s t, below-cons d e t u, below-cons c e s u, below_trans s t u)

pub below_total : (s t : String) → below s t ≡ false → below t s ≡ true
below_total [] t h = ground (arith, below-nil t)
below_total (c ∷ s) [] h = below-nil (c ∷ s)
below_total (c ∷ s) (d ∷ t) h =
    ground (arith, below-cons c d s t, below-cons d c t s, below_total s t)

pub below_antisym : (s t : String) → below s t ≡ true → below t s ≡ true → s ≡ t
below_antisym [] [] h k = refl
below_antisym [] (d ∷ t) h k = absurd (ground (arith, below-cons_nil d t))
below_antisym (c ∷ s) [] h k = absurd (ground (arith, below-cons_nil c s))
below_antisym (c ∷ s) (d ∷ t) h k =
    let codes : code c ≡ code d = ground (arith, below-cons c d s t, below-cons d c t s) in
    let first : c ≡ d =
      codes_equal c d (ap (compare_ℕ (code c)) (sym codes) ∙ compare_self (code c)) in
    let rest : s ≡ t =
      below_antisym s t (ground (arith, codes, below-cons c d s t))
        (ground (arith, codes, below-cons d c t s)) in
    λ i. first i ∷ rest i
