-- ===== src/Prelude/Dict.antt =====
-- A plain JavaScript object used as a map from names to values: own properties in the order of
-- their insertion, which is the order of `Object.keys` for names that are not array indices.
use mathlib.Core.Path.{◌≡◌, refl}
use mathlib.Core.Bool.{Bool, true, false}
use mathlib.Core.Option.{Option, none, some}
use mathlib.Core.List.{List, [], ◌∷◌, ◌++◌, map}
use Prim.Native.Nat.{◌+◌, ◌≤◌}
use Prim.Native.String.{String}
use native.Mathlib.Omega.{arith}
use text.Mathlib.Text.{◌==◌}
use text.Mathlib.TextEquality.{eq_iff}
use new_zone_reference.Prelude.Tests.{if◌then◌else◌}
use new_zone_reference.Prelude.Lists.{length}
use new_zone_reference.Prelude.Sort.{All}
use text.Mathlib.TextPositions.{eq_refl}

abbrev pub Dict {ℓ} : Type ℓ → Type ℓ
Dict V = List (String × V)

-- A property that is there counts, whatever its value.
abbrev pub is_some {ℓ} : {A : Type ℓ} → Option A → Bool
is_some none = false
is_some (some a) = true

module _ {ℓ} {V : Type ℓ} where
  -- `o[k]`, for an own property.
  unfoldable pub get : String → Dict V → Option V
  get k [] = none
  get k ((j, v) ∷ d) = if j == k then some v else get k d

  -- `o[k] = v` keeps the place of a property that is there, and appends a new one.
  unfoldable pub put : String → V → Dict V → Dict V
  put k v [] = (k, v) ∷ []
  put k v ((j, w) ∷ d) = if j == k then (j, v) ∷ d else (j, w) ∷ put k v d

  -- `delete o[k]`
  unfoldable pub remove : String → Dict V → Dict V
  remove k [] = []
  remove k ((j, w) ∷ d) = let rest = remove k d in if j == k then rest else (j, w) ∷ rest

  abbrev pub keys : Dict V → List String
  keys d = map (λ e. e.0) d

  abbrev pub values : Dict V → List V
  values d = map (λ e. e.1) d

  -- No name occurs twice.
  abbrev pub IsDistinct : Dict V → Type 0
  IsDistinct [] = Unit
  IsDistinct ((j, v) ∷ d) = (is_some (get j d) ≡ false) × IsDistinct d

  pub get-put :
      (k j : String) (v : V) (d : Dict V) → get j (put k v d) ≡ (if k == j then some v else get j d)
  unfolding get put
  get-put k j v [] = refl
  get-put k j v ((i, w) ∷ d) = ground (arith, eq_iff k j, eq_iff i k, eq_iff i j, get-put k j v d)

  pub get-remove :
      (k j : String) (d : Dict V) → get j (remove k d) ≡ (if k == j then none else get j d)
  unfolding get remove
  get-remove k j [] = ground arith
  get-remove k j ((i, w) ∷ d) = ground (arith, eq_iff k j, eq_iff i k, eq_iff i j, get-remove k j d)

  pub length-put :
      (k : String) (v : V) (d : Dict V)
      → length (put k v d) ≡ (if is_some (get k d) then length d else length d + 1)
  unfolding get put
  length-put k v [] = omega arith
  length-put k v ((j, w) ∷ d) = ground (arith, length-put k v d)

  pub put_absent : (k : String) (v : V) (d : Dict V) → get k d ≡ none → put k v d ≡ d ++ (k, v) ∷ []
  unfolding get put
  put_absent k v [] h = refl
  put_absent k v ((j, w) ∷ d) h = ground (arith, put_absent k v d)

  pub remove_absent : (k : String) (d : Dict V) → get k d ≡ none → remove k d ≡ d
  unfolding get remove
  remove_absent k [] h = refl
  remove_absent k ((j, w) ∷ d) h = ground (arith, remove_absent k d)

  pub length-remove :
      (k : String) (d : Dict V)
      → IsDistinct d
      → is_some (get k d) ≡ true
      → length (remove k d) + 1 ≡ length d
  unfolding get remove
  length-remove k [] u h = ground arith
  length-remove k ((j, w) ∷ d) u h =
      ground (arith, length-remove k d u.1, remove_absent k d, eq_iff j k)

  pub length-remove-le : (k : String) (d : Dict V) → length (remove k d) ≤ length d
  unfolding remove
  length-remove-le k [] = omega arith
  length-remove-le k ((j, w) ∷ d) = ground (arith, length-remove-le k d)

  pub put-IsDistinct : (k : String) (v : V) (d : Dict V) → IsDistinct d → IsDistinct (put k v d)
  unfolding get put
  put-IsDistinct k v [] u = (refl, tt)
  put-IsDistinct k v ((j, w) ∷ d) u =
      ground (arith, get-put k j v d, eq_iff k j, eq_iff j k, put-IsDistinct k v d u.1)

  pub remove-IsDistinct : (k : String) (d : Dict V) → IsDistinct d → IsDistinct (remove k d)
  unfolding get remove
  remove-IsDistinct k [] u = tt
  remove-IsDistinct k ((j, w) ∷ d) u = ground (arith, get-remove k j d, remove-IsDistinct k d u.1)

module _ {V : Type 0} where
  All-get_cons :
      (j : String) (v : V) (d entries : Dict V)
      → is_some (get j d) ≡ false
      → All (λ e. get e.0 d ≡ some e.1) entries
      → All (λ e. get e.0 ((j, v) ∷ d) ≡ some e.1) entries
  unfolding get
  All-get_cons j v d [] u h = tt
  All-get_cons j v d ((k, w) ∷ entries) u h =
      (ground (arith, eq_iff j k), All-get_cons j v d entries u h.1)

  -- Where no name occurs twice, each entry is what its name stands for.
  pub All-get : (d : Dict V) → IsDistinct d → All (λ e. get e.0 d ≡ some e.1) d
  unfolding get
  All-get [] u = tt
  All-get ((j, v) ∷ d) u = (ground (arith, eq_refl j), All-get_cons j v d d u.0 (All-get d u.1))
