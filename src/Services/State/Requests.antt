-- ===== src/Services/State/Requests.antt =====
-- services/state/server.js: what the requests do to the store.
use new_zone_reference.Prelude.{
  ℕ, String, ◌≡◌, refl, ap, inl, inr, Bool, true, false, arith, str_eq, eq_iff, Bool-cases,
}
use new_zone_reference.Prelude.Dict.{remove-IsDistinct, length-remove-le}
use new_zone_reference.Js.{Value, str, obj, field, end, prop, or_empty}
use new_zone_reference.Js.Object.{is_inherited}
use new_zone_reference.Crypto.Routing.{Verified}
use text.Mathlib.Text.{starts_with}
use new_zone_reference.Services.Http.{
  Method, Body, get, post, delete, other, with_payload, Request, Response, reply, payload,
  parse_request_body, after, is_get, is_get_below, is_post,
}
use new_zone_reference.Services.Http.Cases.{if_cases, with_payload_cases}
use new_zone_reference.Services.State.{Store, set_state, delete_state}
use new_zone_reference.Services.State.Bounds.{IsValid, set_state-IsValid, get_state-set_state_self}
use new_zone_reference.Services.State.Server.{handle, show_entry, post_set}

delete_state-IsValid :
    (key : String) (store : Store) → IsValid store → IsValid (delete_state key store)
unfolding delete_state
delete_state-IsValid key store v = record {
  distinct = remove-IsDistinct key store v.distinct;
  bounded = omega (arith, v.bounded, length-remove-le key store);
}

below_first :
    (m : Method) (url : String) (body : Body)
    → is_get_below (record { method = m; url = url; body = body }) "/get/" ≡ true
    → (is_get (record { method = m; url = url; body = body }) "/health" ≡ false)
      × (is_post (record { method = m; url = url; body = body }) "/set" ≡ false)
unfolding is_get is_get_below is_post
below_first get url body h = elim (Bool-cases (str_eq url "/health")) [
  | inl same ↦
      let found = ap (λ u. starts_with u "/get/") ((eq_iff url "/health").0 same) in absurd (cc)
  | inr differs ↦ (differs, refl)
]
below_first post url body h = absurd (cc)
below_first delete url body h = absurd (cc)
below_first (other name) url body h = absurd (cc)

post_first :
    (m : Method) (url : String) (body : Body)
    → is_post (record { method = m; url = url; body = body }) "/set" ≡ true
    → is_get (record { method = m; url = url; body = body }) "/health" ≡ false
unfolding is_get is_post
post_first get url body h = absurd (cc)
post_first post url body h = refl
post_first delete url body h = refl
post_first (other name) url body h = refl

module _ (property_key : Value → String) (verify : Value → Verified) where
  -- Every request keeps the keys distinct and at most 500, if the key of a payload that it carries is
  -- none that `Object.prototype` has.
  pub handle-IsValid :
      (now : ℕ) (r : Request) (store : Store)
      → ((v : Value) (crypto : Bool)
          → parse_request_body verify r.body ≡ payload v crypto
          → is_inherited (property_key (prop "key" (or_empty v))) ≡ false)
      → IsValid store
      → IsValid (handle property_key verify now r store).0
  unfolding handle post_set
  handle-IsValid now r store plain valid =
      let P : Store × Response → Type 0 = λ s. IsValid s.0 in
      if_cases P (is_get r "/health") valid (
        if_cases P (is_post r "/set")
          (with_payload_cases P (parse_request_body verify r.body) store _
            (λ v crypto e.
              set_state-IsValid (property_key (prop "key" (or_empty v))) (prop "value" (or_empty v))
                now store (plain v crypto e) valid)
            (λ answer. valid))
          (if_cases P (is_get_below r "/get/") valid (
            if_cases P _ (delete_state-IsValid (after "/delete/" r.url) store valid)
              (if_cases P (is_get r "/keys") valid valid))))

  -- A value that was set by POST /set, in a routing packet or not, is what GET /get/<key> answers
  -- afterwards, under the name that the key converts to.
  pub handle-handle_set :
      (now later : ℕ) (r g : Request) (store : Store) (v : Value) (crypto : Bool)
      → is_post r "/set" ≡ true
      → parse_request_body verify r.body ≡ payload v crypto
      → is_get_below g "/get/" ≡ true
      → after "/get/" g.url ≡ property_key (prop "key" (or_empty v))
      → (handle property_key verify later g (handle property_key verify now r store).0).1
        ≡ reply 200 (
            obj (
              field "key"
                (str (after "/get/" g.url))
                (field "value" (prop "value" (or_empty v)) end)))
  unfolding handle post_set show_entry with_payload
  handle-handle_set now later r g store v crypto posted parsed asked same =
      let first = below_first g.method g.url g.body asked in
      let stored : (handle property_key verify now r store).0
          ≡ (set_state (property_key (prop "key" (or_empty v))) (prop "value" (or_empty v)) now
              store).0 =
        rw (post_first r.method r.url r.body posted, posted, parsed) refl in
      rw
        (
          stored,
          first.0,
          first.1,
          asked,
          same,
          get_state-set_state_self (property_key (prop "key" (or_empty v)))
              (prop "value" (or_empty v)) now store,
        )
        refl
