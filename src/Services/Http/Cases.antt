-- ===== src/Services/Http/Cases.antt =====
-- Case analysis over the branches of a handler.
use new_zone_reference.Prelude.{String, str_eq, ◌≡◌, refl, Bool, true, false, if◌then◌else◌}
use new_zone_reference.Js.{Value}
use new_zone_reference.Services.Http.{
  Request, get, post, delete, other, is_get, is_post, Response, Parsed, payload, answered,
  with_payload,
}

pub if_cases {ℓ κ} :
    {A : Type ℓ} (P : A → Type κ) (b : Bool) {x y : A} → P x → P y → P (if b then x else y)
if_cases P true here there = here
if_cases P false here there = there

-- What holds of every result of the handler, and of every reply that leaves the state, holds of the
-- result.
pub with_payload_cases {ℓ κ} :
    {S : Type ℓ} (P : S × Response → Type κ) (parsed : Parsed) (s : S)
    (handler : Value → Bool → S × Response)
    → ((v : Value) (crypto : Bool) → parsed ≡ payload v crypto → P (handler v crypto))
    → ((r : Response) → P (s, r))
    → P (with_payload parsed s handler)
unfolding with_payload
with_payload_cases P (payload v crypto) s handler handled refused = handled v crypto refl
with_payload_cases P (answered r) s handler handled refused = refused r

-- A request has one method.
pub is_get-is_post : (r : Request) (a b : String) → is_post r b ≡ true → is_get r a ≡ false
unfolding is_get is_post
is_get-is_post r a b =
    elim r.method
      as (λ m.
        elim m [ post ↦ str_eq r.url b | _ ↦ false ] ≡ true
        → elim m [ get ↦ str_eq r.url a | _ ↦ false ] ≡ false) [
          | get ↦ λ h. cc
          | post ↦ λ h. refl
          | delete ↦ λ h. refl
          | other name ↦ λ h. refl
        ]
