-- ===== src/Crypto/Bytes.antt =====
-- Byte strings as lists of numbers, and the little-endian integers of lib/x25519.js.
pub mod Bits
pub mod Codec
use Prim.Native.Nat.{bit_or, bit_and}
use new_zone_reference.Prelude.{
  ℕ, zero, suc, ◌+◌, ◌-◌, ◌*◌, ◌/◌, ◌%◌, ◌^◌, ◌≤◌, ◌<◌, String, ◌≡◌, refl, sym, ap, ◌∙◌, ◌≢◌, ◌↔◌,
  ◌⊎◌, inl, inr, Bool, true, false, not, ◌&&◌, ◌||◌, Option, none, some, List, [], ◌∷◌, ◌++◌, map,
  append_assoc, append-nil, arith, str_eq, eq_iff, eq_refl, ltb, leb, ◌==◌, if◌then◌else◌, ltb→lt,
  lt→ltb, leb→le, ==_iff, Bool-cases, Option-cases, List-cases, length, take, drop, replicate,
  filter, length-append, length-take, length-drop, length-replicate, length-filter, length-map,
  take-append-drop, take-append, drop-append, take_of_le, drop-append_of_le, drop-drop, drop-nil,
  last, length-last, last_of_le, last-last, push_bounded, length-push_bounded, push_bounded-last,
  push_all, push_all-last,
}
use new_zone_reference.Prelude.Sort.{All}

abbrev pub Bytes : Type 0
Bytes = List ℕ

abbrev pub AreBytes : Bytes → Type 0
AreBytes bs = All (λ b. b < 256) bs

-- `concatBytes`: the two `set` calls fill the new array.
unfoldable pub concat_bytes : Bytes → Bytes → Bytes
concat_bytes a b = a ++ b

-- The loop of `bytesToBigIntLE` from the index `i` on.
unfoldable pub from_bytes_loop : ℕ → ℕ → Bytes → ℕ
from_bytes_loop i r [] = r
from_bytes_loop i r (b ∷ bytes) = from_bytes_loop (i + 1) (bit_or r (b * 2 ^ (8 * i))) bytes

-- `bytesToBigIntLE`
unfoldable pub bytes_to_bigint_le : Bytes → ℕ
unfolding from_bytes_loop
bytes_to_bigint_le bytes = from_bytes_loop 0 0 bytes

-- `bigIntToBytesLE`, by the number of bytes still to write.
unfoldable pub bigint_to_bytes_le : ℕ → ℕ → Bytes
bigint_to_bytes_le v zero = []
bigint_to_bytes_le v (suc size) = bit_and v 0xff ∷ bigint_to_bytes_le (v / 2 ^ 8) size
