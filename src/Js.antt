-- ===== src/Js.antt =====
-- The values of the source language that a JSON body can hold, and the operations of the language
-- on arrays and on plain objects that the services use.
pub mod Array
pub mod Object
use new_zone_reference.Prelude.{
  ◌==◌, ℕ, String, Bool, true, false, not, arith, str_eq, if◌then◌else◌,
}
use new_zone_reference.Prelude.Int.{ℤ, pos, negsuc}

-- Numbers are the integers among the doubles: fractions, infinities and NaN are left out.
mutual
  pub data Value : Type 0 where
    undefined : Value
    null : Value
    bool : Bool → Value
    num : ℤ → Value
    str : String → Value
    arr : Items → Value
    obj : Fields → Value

  pub data Fields : Type 0 where
    end : Fields
    field : String → Value → Fields → Fields

  pub data Items : Type 0 where
    nil : Items
    cons : Value → Items → Items

-- `Boolean(v)`
unfoldable pub truthy : Value → Bool
truthy undefined = false
truthy null = false
truthy (bool b) = b
truthy (num (pos ℕ.zero)) = false
truthy (num n) = true
truthy (str s) = not (str_eq s "")
truthy (arr xs) = true
truthy (obj fs) = true

-- `a || b`
unfoldable pub or_else : Value → Value → Value
unfolding truthy
or_else a b = if truthy a then a else b

-- `x = d` in a parameter list: the default stands for `undefined` only.
unfoldable pub default : Value → Value → Value
default d undefined = d
default d v = v

unfoldable pub find_field : String → Fields → Value
find_field k end = undefined
find_field k (field j v fs) = if str_eq j k then v else find_field k fs

-- `v[k]` for a name `k` that the prototypes do not have; of `undefined` and `null` it is a
-- `TypeError`, which `prop` leaves to its caller.
unfoldable pub prop : String → Value → Value
unfolding find_field
prop k (obj fs) = find_field k fs
prop k v = undefined

-- `payload || {}`
unfoldable pub or_empty : Value → Value
unfolding or_else
or_empty v = or_else v (obj end)

-- `a === b`, of two values that were parsed from different texts: an array or an object is the same
-- only as itself.
unfoldable pub strict_equal : Value → Value → Bool
strict_equal undefined undefined = true
strict_equal null null = true
strict_equal (bool a) (bool b) = if a then b else not b
strict_equal (num (pos a)) (num (pos b)) = a == b
strict_equal (num (negsuc a)) (num (negsuc b)) = a == b
strict_equal (str a) (str b) = str_eq a b
strict_equal a b = false
