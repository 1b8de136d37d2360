-- ===== src/Services/State.antt =====
-- services/state/index.js: the key-value store with at most 500 keys, which evicts the oldest entry.
pub mod Bounds
pub mod Server
pub mod Requests
use new_zone_reference.Prelude.{
  ℕ, ◌+◌, String, Bool, true, false, not, ◌&&◌, Option, none, some, List, [], ◌∷◌, length, leb,
  if◌then◌else◌,
}
use new_zone_reference.Prelude.Dict.{Dict, get, put, remove, keys}
use new_zone_reference.Services.Oldest.{evict_oldest}
use new_zone_reference.Js.{Value}
use new_zone_reference.Js.Object.{Slot, own, inherited, missing, read}

pub record Entry : Type 0 where
  pub value : Value
  pub ts : ℕ

abbrev pub Store : Type 0
Store = Dict Entry

abbrev pub max_keys : ℕ
max_keys = 500

-- `!STATE[key]`
unfoldable pub is_missing : Slot Entry → Bool
is_missing missing = true
is_missing s = false

-- `setState`, for a key other than `__proto__`: the new store and the entry that it returns.
unfoldable pub set_state : String → Value → ℕ → Store → Store × Entry
unfolding is_missing read
set_state key value now store =
    let room =
      if leb max_keys (length (keys store)) && is_missing (read key store)
      then evict_oldest (λ e. e.ts) store
      else store in
    let entry : Entry = record { value = value; ts = now } in (put key entry room, entry)

-- `getState`: `missing` stands for `null`, and `inherited` for a function of `Object.prototype`.
unfoldable pub get_state : String → Store → Slot Entry
get_state key store = read key store

-- `deleteState`
unfoldable pub delete_state : String → Store → Store
delete_state key store = remove key store

-- `listKeys`
unfoldable pub list_keys : Store → List String
list_keys store = keys store
