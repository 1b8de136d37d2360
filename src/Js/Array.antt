-- ===== src/Js/Array.antt =====
-- `Array.prototype.slice` with one bound, on integers.
use new_zone_reference.Prelude.{zero, suc, ◌-◌, List, length, take, drop, last}
use new_zone_reference.Prelude.Int.{ℤ, pos, negsuc}

-- `-n`; the negative zero behaves as zero.
unfoldable pub neg : ℤ → ℤ
neg (pos zero) = pos zero
neg (pos (suc n)) = negsuc n
neg (negsuc n) = pos (suc n)

module _ {ℓ} {A : Type ℓ} where
  -- `xs.slice(k)`
  unfoldable pub slice_from : ℤ → List A → List A
  slice_from (pos n) xs = drop n xs
  slice_from (negsuc n) xs = last (suc n) xs

  -- `xs.slice(0, k)`
  unfoldable pub slice_to : ℤ → List A → List A
  slice_to (pos n) xs = take n xs
  slice_to (negsuc n) xs = take (length xs - suc n) xs
