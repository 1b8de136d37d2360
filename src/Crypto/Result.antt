-- ===== src/Crypto/Result.antt =====
-- The errors that the library throws, and results that may be one of them.
use new_zone_reference.Prelude.{◌≡◌, refl, ap, Bool, true, false}

pub data Error : Type 0 where
  out_len_out_of_range : Error
  unsupported_hash : Error
  invalid_length : Error
  shared_secret_required : Error
  shared_secret_empty : Error
  key_length_out_of_range : Error
  base_context_required : Error
  invalid_role : Error
  invalid_nonce_base : Error
  invalid_key : Error
  invalid_nonce : Error
  invalid_tag : Error
  invalid_scalar : Error
  invalid_coordinate : Error
  invalid_seed : Error
  context_too_long : Error
  invalid_prehash : Error
  unsupported_version : Error
  unsupported_cipher : Error
  authentication_failed : Error
  invalid_json : Error

pub data Result {ℓ} (T : Type ℓ) : Type ℓ where
  err : Error → Result T
  ok : T → Result T

infixl 5 ◌>>=◌
abbrev pub ◌>>=◌ {κ ℓ} : {S : Type κ} {T : Type ℓ} → Result S → (S → Result T) → Result T
err thrown >>= next = err thrown
ok value >>= next = next value

infixl 5 ◌>>◌
abbrev pub ◌>>◌ {ℓ} : {T : Type ℓ} → Result (Unit {0}) → Result T → Result T
first >> next = first >>= λ u. next

-- `if (b) throw e;`
abbrev pub throw_if : Bool → Error → Result (Unit {0})
throw_if true e = err e
throw_if false e = ok tt

-- A sequence that succeeds passes an intermediate value on.
pub >>=-eq-ok {κ ℓ} :
    {S : Type κ} {T : Type ℓ} (first : Result S) (next : S → Result T) {result : T}
    → (first >>= next) ≡ ok result
    → (value : S) × (first ≡ ok value) × (next value ≡ ok result)
>>=-eq-ok (err thrown) next done = cc
>>=-eq-ok (ok value) next done = (value, refl, done)

abbrev from_ok {ℓ} : {A : Type ℓ} → A → Result A → A
from_ok d (ok a) = a
from_ok d (err e) = d

pub ok_inj {ℓ} : {A : Type ℓ} {a b : A} → ok a ≡ ok b → a ≡ b
ok_inj {b = b} h = ap (from_ok b) h

pub throw_if-eq-ok : (b : Bool) (e : Error) {u : Unit {0}} → throw_if b e ≡ ok u → b ≡ false
throw_if-eq-ok true e h = absurd (cc)
throw_if-eq-ok false e h = refl
