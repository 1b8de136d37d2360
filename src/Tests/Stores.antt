-- ===== src/Tests/Stores.antt =====
-- The theorems about the key-value store of services/state at a full store.
use new_zone_reference.Prelude.{
  eq_iff, ℕ, zero, suc, ◌+◌, ◌≤◌, ◌<◌, String, ◌≡◌, refl, sym, ap, ◌∙◌, ◌⊎◌, inl, inr, none, some,
  [], ◌∷◌, arith, str_eq, if◌then◌else◌, Bool-cases, length,
}
use Prim.Native.String as Text
use new_zone_reference.Prelude.Sort.{All}
use new_zone_reference.Prelude.Dict.{get, IsDistinct}
use new_zone_reference.Js.{str, null}
use new_zone_reference.Js.Object.{is_inherited}
use new_zone_reference.Services.State.{Store, Entry, set_state}
use new_zone_reference.Services.State.Bounds.{IsValid, set_state_evicts}

unfoldable size : String → ℕ
size Text.[] = 0
size (Text.◌∷◌ c s) = size s + 1

-- A text of `n` letters more than 20.
unfoldable name : ℕ → String
name zero = "aaaaaaaaaaaaaaaaaaaa"
name (suc n) = Text.◌∷◌ "a" (name n)

size-name : (n : ℕ) → size (name n) ≡ n + 20
unfolding size name
size-name zero = refl
size-name (suc n) = omega (arith, size-name n)

unfoldable fill : ℕ → Store
fill zero = []
fill (suc n) = (name n, record { value = null; ts = n }) ∷ fill n

length-fill : (n : ℕ) → length (fill n) ≡ n
unfolding fill
length-fill zero = refl
length-fill (suc n) = ground (arith, length-fill n)

get-fill : (k : String) (n : ℕ) → size k < 20 ⊎ n + 20 ≤ size k → get k (fill n) ≡ none
unfolding fill get
get-fill k zero h = refl
get-fill k (suc n) h =
    let rest = get-fill k n (ground arith) in
    elim (Bool-cases (str_eq (name n) k)) [
      | inl same ↦
          let sizes : size k ≡ n + 20 = ap size (sym ((eq_iff (name n) k).0 same)) ∙ size-name n in
          absurd (ground arith)
      | inr differs ↦ rw differs rest
    ]

fill-IsDistinct : (n : ℕ) → IsDistinct (fill n)
unfolding fill
fill-IsDistinct zero = tt
fill-IsDistinct (suc n) =
    (rw (get-fill (name n) n (inr (ground (arith, size-name n)))) refl, fill-IsDistinct n)

fill-IsValid : IsValid (fill 500)
fill-IsValid = record { distinct = fill-IsDistinct 500; bounded = ground (arith, length-fill 500) }

absent : get (name 500) (fill 500) ≡ none
absent = get-fill (name 500) 500 (inr (ground (arith, size-name 500)))

set_state_evicts_example :
    (old : String) × (e : Entry) × (get old (fill 500) ≡ some e)
    × All (λ p. e.ts ≤ p.1.ts) (fill 500)
    × ((other : String)
        → get other (set_state (name 500) (str "v") 900 (fill 500)).0 ≡ (
            if str_eq (name 500) other
            then some (record { value = str "v"; ts = 900 })
            else (if str_eq old other then none else get other (fill 500))))
unfolding is_inherited name
set_state_evicts_example =
    set_state_evicts (name 500) (str "v") 900 (fill 500) refl fill-IsValid (length-fill 500) absent
