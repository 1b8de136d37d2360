-- ===== src/Crypto/Routing/Canonical.antt =====
-- lib/nz-crypto-routing.js: the text that is signed and the order of the fields.
use new_zone_reference.Prelude.{
  String, ◌≡◌, refl, sym, ap, ◌∙◌, ◌≢◌, inl, inr, true, false, List, [], ◌∷◌, map, arith,
  Bool-cases,
}
use new_zone_reference.Prelude.Texts.{below, below_trans, below_total, below_antisym}
use Prim.Native.String as Text
use new_zone_reference.Js.{Value, Items, Fields, arr, obj, nil, cons, end, field, prop}
use new_zone_reference.Crypto.Routing.{
  insert_entry, stable_stringify, stable_items, stable_fields, join, build_signing_payload,
}

insert_entry_ordered :
    (k l a b : String) (entries : List (String × String))
    → below k l ≡ true
    → below l k ≡ false
    → insert_entry k a (insert_entry l b entries) ≡ insert_entry l b (insert_entry k a entries)
unfolding insert_entry
insert_entry_ordered k l a b [] first after = rw (first, after) refl
insert_entry_ordered k l a b ((j, t) ∷ entries) first after =
    ground (arith, below_trans k l j, insert_entry_ordered k l a b entries)

-- Two entries with different names may be inserted in either order.
insert_entry_comm :
    (k l a b : String) (entries : List (String × String))
    → k ≢ l
    → insert_entry k a (insert_entry l b entries) ≡ insert_entry l b (insert_entry k a entries)
insert_entry_comm k l a b entries apart = elim (Bool-cases (below k l)) [
  | inr after ↦ sym (insert_entry_ordered l k b a entries (below_total k l after) after)
  | inl first ↦ elim (Bool-cases (below l k)) [
    | inr after ↦ insert_entry_ordered k l a b entries first after
    | inl both ↦ absurd (apart (below_antisym k l first both))
  ]
]

-- Values that differ in the order of the fields of objects, at any depth.
mutual
  pub data Alike : Value → Value → Type 0 where
    same : (v : Value) → Alike v v
    arrays : {xs ys : Items} → AlikeItems xs ys → Alike (arr xs) (arr ys)
    objects : {fs gs : Fields} → AlikeFields fs gs → Alike (obj fs) (obj gs)

  pub data AlikeItems : Items → Items → Type 0 where
    nils : AlikeItems nil nil
    conses :
        {v w : Value} {xs ys : Items}
        → Alike v w
        → AlikeItems xs ys
        → AlikeItems (cons v xs) (cons w ys)

  pub data AlikeFields : Fields → Fields → Type 0 where
    ends : AlikeFields end end
    keep :
        (k : String) {v w : Value} {fs gs : Fields}
        → Alike v w
        → AlikeFields fs gs
        → AlikeFields (field k v fs) (field k w gs)
    swap :
        (k l : String) (v w : Value) (fs : Fields)
        → k ≢ l
        → AlikeFields (field k v (field l w fs)) (field l w (field k v fs))
    compose : {fs gs hs : Fields} → AlikeFields fs gs → AlikeFields gs hs → AlikeFields fs hs

module _ (json : Value → String) where
  mutual
    unfolding stable_stringify

    stable_stringify-Alike :
        {v w : Value} → Alike v w → stable_stringify json v ≡ stable_stringify json w
    stable_stringify-Alike (same v) = refl
    stable_stringify-Alike (arrays a) =
        ap (λ ts. Text.◌++◌ "[" (Text.◌++◌ (join ts) "]")) (stable_items-Alike a)
    stable_stringify-Alike (objects a) =
        ap (λ es. Text.◌++◌ "{" (Text.◌++◌ (join (map (λ e. e.1) es)) "}")) (stable_fields-Alike a)

    stable_items-Alike :
        {xs ys : Items} → AlikeItems xs ys → stable_items json xs ≡ stable_items json ys
    stable_items-Alike nils = refl
    stable_items-Alike (conses a as') = rw (stable_stringify-Alike a, stable_items-Alike as') refl

    stable_fields-Alike :
        {fs gs : Fields} → AlikeFields fs gs → stable_fields json fs ≡ stable_fields json gs
    stable_fields-Alike ends = refl
    stable_fields-Alike (keep k a as') = rw (stable_stringify-Alike a, stable_fields-Alike as') refl
    stable_fields-Alike (swap k l v w fs apart) =
        insert_entry_comm k l _ _ (stable_fields json fs) apart
    stable_fields-Alike (compose as' bs) = stable_fields-Alike as' ∙ stable_fields-Alike bs

  -- Two packets with the same version, node identifier, time and nonce, whose payloads differ
  -- at most in the order of the fields of objects, at any depth, have the same text to be
  -- signed, and the order of the fields of the packets does not matter.
  pub build_signing_payload-Alike :
      (packet other : Value)
      → prop "version" packet ≡ prop "version" other
      → prop "node_id" packet ≡ prop "node_id" other
      → prop "ts" packet ≡ prop "ts" other
      → prop "nonce" packet ≡ prop "nonce" other
      → Alike (prop "payload" packet) (prop "payload" other)
      → build_signing_payload json packet ≡ build_signing_payload json other
  unfolding build_signing_payload
  build_signing_payload-Alike packet other version node_id ts nonce alike =
      rw (version, node_id, ts, nonce)
        (stable_stringify-Alike (
          objects (
            keep "version" (same _) (
              keep "node_id" (same _)
                (keep "ts" (same _) (keep "nonce" (same _) (keep "payload" alike ends)))))))
