-- ===== src/Services/State/Bounds.antt =====
-- services/state/index.js: the size of the store, and what a change leaves.
use new_zone_reference.Prelude.{
  ℕ, ◌+◌, ◌≤◌, ◌<◌, String, ◌≡◌, refl, ◌⊎◌, inl, inr, true, false, not, ◌&&◌, none, some, arith,
  str_eq, eq_iff, eq_refl, leb, if◌then◌else◌, Bool-cases, length, length-map,
}
use new_zone_reference.Prelude.Dict.{
  is_some, get, keys, get-put, get-remove, IsDistinct, length-put, put-IsDistinct,
}
use new_zone_reference.Prelude.Sort.{All}
use new_zone_reference.Services.Oldest.{evict_oldest, evict_oldest-IsDistinct, evict_oldest-least}
use new_zone_reference.Js.{Value}
use new_zone_reference.Js.Object.{own, read, slot_of, is_inherited}
use new_zone_reference.Services.State.{
  Entry, Store, max_keys, is_missing, set_state, get_state, delete_state,
}

get-read :
    (key : String) (store : Store)
    → is_inherited key ≡ false
    → is_missing (read key store) ≡ not (is_some (get key store))
unfolding read slot_of is_missing
get-read key store plain = ground arith

-- A store as the operations make it: no key twice, and no more than the limit.
pub record IsValid (store : Store) : Type 0 where
  pub distinct : IsDistinct store
  pub bounded : length store ≤ max_keys

length-keys : (store : Store) → length (keys store) ≡ length store
length-keys store = length-map (λ e. e.0) store

full_nonempty : (store : Store) → leb max_keys (length (keys store)) ≡ true → 0 < length store
full_nonempty store h = ground (arith, length-keys store)

-- Setting a key that `Object.prototype` does not have keeps the keys distinct and at most 500.
pub set_state-IsValid :
    (key : String) (value : Value) (now : ℕ) (store : Store)
    → is_inherited key ≡ false
    → IsValid store
    → IsValid (set_state key value now store).0
unfolding set_state
set_state-IsValid key value now store plain v =
    elim (Bool-cases (leb max_keys (length (keys store)) && is_missing (read key store))) [
      | inl full ↦
          let (u, less) =
            evict_oldest-IsDistinct (λ e. e.ts) store v.distinct
              (full_nonempty store (ground arith)) in
          rw full (record {
            distinct =
                put-IsDistinct key (record { value = value; ts = now })
                  (evict_oldest (λ e. e.ts) store) u;
            bounded = ground (
              arith,
              v.bounded,
              less,
              length-put key (record { value = value; ts = now }) (evict_oldest (λ e. e.ts) store),
            );
          })
      | inr roomy ↦ rw roomy (record {
        distinct = put-IsDistinct key (record { value = value; ts = now }) store v.distinct;
        bounded = ground (
          arith,
          v.bounded,
          get-read key store plain,
          length-keys store,
          length-put key (record { value = value; ts = now }) store,
        );
      })
    ]

-- The value that was set is read back with the time of the call, whatever was evicted.
pub get_state-set_state_self :
    (key : String) (value : Value) (now : ℕ) (store : Store)
    → get_state key (set_state key value now store).0 ≡ own (record { value = value; ts = now })
unfolding get_state set_state read slot_of
get_state-set_state_self key value now store =
    rw
      (
        get-put key key (record { value = value; ts = now })
            (if leb max_keys (length (keys store)) && is_missing (read key store)
              then evict_oldest (λ e. e.ts) store
              else store),
        eq_refl key,
      )
      refl

-- While the store is not full, or has the key already, setting a key that `Object.prototype` does
-- not have changes the entry of this key only.
pub set_state_others :
    (key other : String) (value : Value) (now : ℕ) (store : Store)
    → is_inherited key ≡ false
    → length store < max_keys ⊎ is_some (get key store) ≡ true
    → get other (set_state key value now store).0
      ≡ (if str_eq key other then some (record { value = value; ts = now }) else get other store)
unfolding set_state
set_state_others key other value now store plain roomy = ground (
  arith,
  get-read key store plain,
  length-keys store,
  eq_iff key other,
  get-put key other (record { value = value; ts = now }) store,
)

-- Setting a new key that `Object.prototype` does not have in a full store, whose keys are distinct,
-- removes exactly one other entry, and no entry of the store is older than the one that goes.
pub set_state_evicts :
    (key : String) (value : Value) (now : ℕ) (store : Store)
    → is_inherited key ≡ false
    → IsValid store
    → length store ≡ max_keys
    → get key store ≡ none
    → (old : String) × (e : Entry) × (get old store ≡ some e)
      × All (λ p. e.ts ≤ p.1.ts) store
      × ((other : String)
          → get other (set_state key value now store).0 ≡ (
              if str_eq key other
              then some (record { value = value; ts = now })
              else (if str_eq old other then none else get other store)))
unfolding set_state
set_state_evicts key value now store plain v full absent =
    let (old, e, there, least, same) =
      evict_oldest-least (λ e. e.ts) store v.distinct (omega arith) in
    (
      old,
      e,
      there,
      least,
      λ other. ground (
        arith,
        get-read key store plain,
        length-keys store,
        eq_iff key other,
        same,
        get-put key other (record { value = value; ts = now }) (evict_oldest (λ e. e.ts) store),
        get-remove old other store,
      ),
    )

-- A deleted key is no longer its own, and every other key is left.
pub delete_state_others :
    (key other : String) (store : Store)
    → get_state other (delete_state key store)
      ≡ (if str_eq key other then slot_of (is_inherited key) none else get_state other store)
unfolding get_state delete_state read
delete_state_others key other store = ground (arith, get-remove key other store, eq_iff key other)

-- At the limit, setting a key that `Object.prototype` has and the store does not have leaves the
-- store with one key more than the limit.
pub set_state_overflow :
    (key : String) (value : Value) (now : ℕ) (store : Store)
    → is_inherited key ≡ true
    → get key store ≡ none
    → length store ≡ max_keys
    → length (set_state key value now store).0 ≡ max_keys + 1
unfolding set_state read slot_of is_missing
set_state_overflow key value now store found absent full =
    ground (arith, length-put key (record { value = value; ts = now }) store)
