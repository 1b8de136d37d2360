-- ===== src/Js/Object.antt =====
-- Reading a plain object by a computed name: `o[name]` also finds what `Object.prototype` has, and
-- that is truthy whatever the name.
use new_zone_reference.Prelude.{
  String, Bool, true, false, Option, none, some, List, [], ◌∷◌, str_eq, ◌||◌,
}
use new_zone_reference.Prelude.Dict.{Dict, get}

-- The properties of `Object.prototype`.
abbrev pub prototype_names : List String
prototype_names =
    "constructor" ∷ "__defineGetter__" ∷ "__defineSetter__" ∷ "hasOwnProperty" ∷ "__lookupGetter__"
    ∷ "__lookupSetter__" ∷ "isPrototypeOf" ∷ "propertyIsEnumerable" ∷ "toString" ∷ "valueOf"
    ∷ "__proto__" ∷ "toLocaleString" ∷ []

unfoldable pub contains : String → List String → Bool
contains k [] = false
contains k (j ∷ js) = str_eq j k || contains k js

unfoldable pub is_inherited : String → Bool
unfolding contains
is_inherited k = contains k prototype_names

-- What `o[name]` finds.
pub data Slot {ℓ} (V : Type ℓ) : Type ℓ where
  own : V → Slot V
  inherited : Slot V
  missing : Slot V

unfoldable pub slot_of {ℓ} : {V : Type ℓ} → Bool → Option V → Slot V
slot_of b (some v) = own v
slot_of true none = inherited
slot_of false none = missing

unfoldable pub read {ℓ} : {V : Type ℓ} → String → Dict V → Slot V
unfolding slot_of
read k d = slot_of (is_inherited k) (get k d)
