-- ===== src/Services/Oldest.antt =====
-- The eviction that the state store and the peer list share: the name whose entry has the least time,
-- which is the first one of the sorted names.
use new_zone_reference.Prelude.{
  ℕ, ◌+◌, ◌≤◌, ◌<◌, String, ◌≡◌, refl, ap, inl, inr, Option, none, some, [], ◌∷◌, ◌++◌, arith,
  List-cases, length,
}
use new_zone_reference.Prelude.Dict.{
  Dict, get, remove, IsDistinct, All-get, length-remove, remove-IsDistinct,
}
use new_zone_reference.Prelude.Sort.{
  sort_by-append_greatest, sort_by, sort_by_first, sort_by_least, length-sort_by, All,
}

module _ {V : Type 0} (ts : V → ℕ) where
  -- `Object.keys(o).sort((a, b) => o[a].ts - o[b].ts)[0]`
  unfoldable pub oldest_key : Dict V → Option String
  oldest_key store = elim (sort_by (λ e. ts e.1) store) [ [] ↦ none | e ∷ rest ↦ some e.0 ]

  -- `delete o[oldest]`
  unfoldable pub evict_oldest : Dict V → Dict V
  unfolding oldest_key
  evict_oldest store = elim (oldest_key store) [ none ↦ store | some key ↦ remove key store ]

  -- An oldest entry: its time is the least in the store.
  pub oldest_key-least :
      (store : Dict V) (key : String)
      → IsDistinct store
      → oldest_key store ≡ some key
      → (e : V) × (get key store ≡ some e) × All (λ p. ts e ≤ ts p.1) store
  unfolding oldest_key
  oldest_key-least store key u h = elim (List-cases (sort_by (λ e. ts e.1) store)) [
    | inl e ↦ absurd (ground arith)
    | inr (first, rest, e) ↦
        let same : first.0 ≡ key = ground arith in
        (
          first.1,
          rw (← same) (
              sort_by_first (λ e. ts e.1) (λ p. get p.0 store ≡ some p.1) first store rest e
                (All-get store u)),
          sort_by_least (λ e. ts e.1) first store rest e,
        )
  ]

  pub oldest_key-some :
      (store : Dict V) → 0 < length store → (key : String) × (oldest_key store ≡ some key)
  unfolding oldest_key
  oldest_key-some store h = elim (List-cases (sort_by (λ e. ts e.1) store)) [
    | inl e ↦ absurd (omega (arith, length-sort_by (λ (p : String × V). ts p.1) store, ap length e))
    | inr (first, rest, e) ↦ (first.0, rw (e, oldest_key) refl)
  ]

  -- Evicting from a store that is not empty takes away one entry, and none is older.
  pub evict_oldest-least :
      (store : Dict V)
      → IsDistinct store
      → 0 < length store
      → (key : String) × (e : V) × (get key store ≡ some e)
        × All (λ p. ts e ≤ ts p.1) store
        × (evict_oldest store ≡ remove key store)
  unfolding evict_oldest
  evict_oldest-least store u h =
      let (key, found) = oldest_key-some store h in
      let (e, there, least) = oldest_key-least store key u found in
      (key, e, there, least, rw (found, evict_oldest) refl)

  pub evict_oldest-IsDistinct :
      (store : Dict V)
      → IsDistinct store
      → 0 < length store
      → IsDistinct (evict_oldest store) × (length (evict_oldest store) + 1 ≡ length store)
  evict_oldest-IsDistinct store u h =
      let (key, e, there, least, same) = evict_oldest-least store u h in
      rw same (remove-IsDistinct key store u, length-remove key store u (ground arith))

  -- A new entry that is no older than the others is not the oldest.
  pub oldest_key-append :
      (store : Dict V) (key : String) (v : V)
      → 0 < length store
      → All (λ p. ts p.1 ≤ ts v) store
      → oldest_key (store ++ (key, v) ∷ []) ≡ oldest_key store
  unfolding oldest_key
  oldest_key-append store key v h newest = elim (List-cases (sort_by (λ e. ts e.1) store)) [
    | inl e ↦ absurd (omega (arith, length-sort_by (λ (p : String × V). ts p.1) store, ap length e))
    | inr (first, rest, e) ↦
        ground (arith, sort_by-append_greatest (λ (p : String × V). ts p.1) store (key, v) newest)
  ]
