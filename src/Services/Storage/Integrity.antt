-- ===== src/Services/Storage/Integrity.antt =====
-- services/storage/index.js: the objects and the hashes that they stand under.
use new_zone_reference.Prelude.{
  String, ◌≡◌, sym, ap, ◌∙◌, inl, inr, true, some, List, [], ◌∷◌, arith, str_eq, eq_iff, eq_refl,
  Bool-cases, Option-cases,
}
use new_zone_reference.Prelude.Dict.{get, get-put}
use new_zone_reference.Js.{Value, truthy}
use new_zone_reference.Js.Object.{own, read, slot_of}
use new_zone_reference.Services.Storage.{
  Store, or_null, get_object, generate_hash, store_object, verify_object, store_all,
}

module _ (sha256_json : Value → String) where
  -- Each object stands under its own hash.
  abbrev pub IsSound : Store → Type 0
  IsSound store =
      (hash_id : String) (v : Value) → get hash_id store ≡ some v → sha256_json v ≡ hash_id

  pub store_object-IsSound :
      (payload : Value) (store : Store)
      → IsSound store
      → IsSound (store_object sha256_json payload store).0
  unfolding store_object generate_hash
  store_object-IsSound payload store sound hash_id v =
      rw (get-put (sha256_json payload) hash_id payload store)
        (λ h. ground (arith, sound hash_id v, eq_iff (sha256_json payload) hash_id))

  store_all-IsSound :
      (payloads : List Value) (store : Store)
      → IsSound store
      → IsSound (store_all sha256_json payloads store)
  unfolding store_all
  store_all-IsSound [] store sound = sound
  store_all-IsSound (p ∷ payloads) store sound =
      store_all-IsSound payloads (store_object sha256_json p store).0
        (store_object-IsSound p store sound)

  -- After any calls of `storeObject` on an empty store, an object that `getObject` returns under a
  -- hash verifies against that hash.
  pub get_object-verifies :
      (payloads : List Value) (hash_id : String) (v : Value)
      → get_object hash_id (store_all sha256_json payloads []) ≡ own v
      → verify_object sha256_json v hash_id ≡ true
  unfolding verify_object generate_hash get_object or_null read slot_of
  get_object-verifies payloads hash_id v h =
      let store = store_all sha256_json payloads [] in
      elim (Option-cases (get hash_id store)) [
        | inl absent ↦ absurd (ground arith)
        | inr (w, there) ↦
            let found : get hash_id store ≡ some v = ground arith in
            (eq_iff (sha256_json v) hash_id).1
              (store_all-IsSound payloads [] (λ k u e. absurd (unfold get in cc)) hash_id v found)
      ]

  -- A payload that is truthy, as the objects are that the server admits, is read back under the hash
  -- that `storeObject` returns, and verifies.
  pub get_object-store_object :
      (payload : Value) (store : Store)
      → truthy payload ≡ true
      → let (store', hash_id) = store_object sha256_json payload store in
        (get_object hash_id store' ≡ own payload)
        × (verify_object sha256_json payload hash_id ≡ true)
  unfolding get_object store_object verify_object generate_hash or_null read slot_of
  get_object-store_object payload store t = (
    rw
        (
          get-put (sha256_json payload) (sha256_json payload) payload store,
          eq_refl (sha256_json payload),
        )
        (ground arith),
    eq_refl (sha256_json payload),
  )

  -- Storing a payload never changes an object that is there, unless the two are different and have
  -- the same hash.
  pub store_object_immutable :
      (payloads : List Value) (payload v : Value) (hash_id : String)
      → (sha256_json payload ≡ sha256_json v → payload ≡ v)
      → get hash_id (store_all sha256_json payloads []) ≡ some v
      → get hash_id (store_object sha256_json payload (store_all sha256_json payloads [])).0
        ≡ some v
  unfolding store_object generate_hash
  store_object_immutable payloads payload v hash_id apart there =
      let sound =
        store_all-IsSound payloads [] (λ k u e. absurd (unfold get in cc)) hash_id v there in
      rw (get-put (sha256_json payload) hash_id payload (store_all sha256_json payloads []))
        (elim (Bool-cases (str_eq (sha256_json payload) hash_id)) [
          | inl same ↦
              rw same (ap some (apart ((eq_iff (sha256_json payload) hash_id).0 same ∙ sym sound)))
          | inr other ↦ rw other there
        ])
