-- ===== src/Crypto/Hkdf/Blocks.antt =====
-- lib/hkdf.js: the loop of `hkdfExpand` against the chain of blocks of the standard.
use Prim.Native.Nat.{min}
use new_zone_reference.Prelude.{
  ℕ, zero, suc, ◌+◌, ◌-◌, ◌*◌, ◌%◌, ◌≤◌, ◌≡◌, refl, sym, ap, ◌∙◌, inl, inr, [], ◌∷◌, ◌++◌,
  append_assoc, arith, leb, Bool-cases, length, take, drop, replicate, length-append, length-take,
  take-append, drop-append, take_of_le, drop-drop,
}
use new_zone_reference.Crypto.Bytes.{Bytes, concat_bytes}
use new_zone_reference.Crypto.Result.{Result, ok}
use new_zone_reference.Crypto.Hkdf.{Hashes, hash_len, set_bytes, expand_loop}

-- The blocks T(i), T(i + 1), … of RFC 5869, as many as there are rounds, after the block `t`.
unfoldable pub blocks : (Bytes → Bytes) → Bytes → ℕ → ℕ → Bytes → Bytes
blocks h info zero i t = []
blocks h info (suc rounds) i t =
    h ((t ++ info) ++ i % 256 ∷ [])
    ++ blocks h info rounds (i + 1) (h ((t ++ info) ++ i % 256 ∷ []))

pub length-blocks :
    (h : Bytes → Bytes)
    → ((text : Bytes) → length (h text) ≡ hash_len)
    → (info : Bytes) (rounds i : ℕ) (t : Bytes)
    → length (blocks h info rounds i t) ≡ rounds * hash_len
unfolding blocks
length-blocks h size info zero i t = omega arith
length-blocks h size info (suc rounds) i t =
    let t' = h ((t ++ info) ++ i % 256 ∷ []) in
    omega (
      arith,
      length-append t' (blocks h info rounds (i + 1) t'),
      size ((t ++ info) ++ i % 256 ∷ []),
      length-blocks h size info rounds (i + 1) t',
    )

abbrev pub zeros : ℕ → Bytes
zeros n = replicate n 0

pub take-nil : (n : ℕ) → take {A = ℕ} n [] ≡ []
take-nil zero = refl
take-nil (suc n) = refl

pub drop-zeros : (m n : ℕ) → drop m (zeros n) ≡ zeros (n - m)
drop-zeros zero n = let e : n ≡ n - 0 = omega arith in ap zeros e
drop-zeros (suc m) zero = let e : 0 ≡ 0 - suc m = omega arith in ap zeros e
drop-zeros (suc m) (suc n) =
    let e : n - m ≡ suc n - suc m = omega arith in drop-zeros m n ∙ ap zeros e

-- Writing at the end of what is written leaves fewer zeros.
pub set_bytes-zeros :
    (written slice : Bytes) (left : ℕ)
    → set_bytes (length written) slice (written ++ zeros left)
      ≡ (written ++ slice) ++ zeros (left - length slice)
unfolding set_bytes
set_bytes-zeros written slice left =
    rw
      (
        take-append written (zeros left),
        ← drop-drop (length slice) (length written) (written ++ zeros left),
        drop-append written (zeros left),
        drop-zeros (length slice) left,
      )
      (sym (append_assoc written slice (zeros (left - length slice))))

pub take-append-take :
    (n : ℕ) (t rest : Bytes) → take n t ++ take (n - length t) rest ≡ take n (t ++ rest)
take-append-take n [] rest = let e : n - 0 ≡ n = omega arith in rw (e, take-nil n) refl
take-append-take zero (b ∷ t) rest = let e : 0 - suc (length t) ≡ 0 = omega arith in rw e refl
take-append-take (suc n) (b ∷ t) rest =
    let e : suc n - suc (length t) ≡ n - length t = omega arith in
    rw e (ap (◌∷◌ b) (take-append-take n t rest))

pub take-min : (m n : ℕ) (t : Bytes) → length t ≤ m → take (min m n) t ≡ take n t
take-min m n t h = elim (Bool-cases (leb n m)) [
  | inl le ↦ let e : min m n ≡ n = ground arith in rw e refl
  | inr gt ↦
      let e : min m n ≡ m = ground arith in
      rw (e, take_of_le m t h, take_of_le n t (ground arith)) refl
]

module _ (crypto : Hashes) (hmac : Bytes → Bytes → Result Bytes) (h : Bytes → Bytes)
    (prk info : Bytes) (total : (text : Bytes) → hmac prk text ≡ ok (h text))
    (size : (text : Bytes) → length (h text) ≡ hash_len) where
  pub expand_loop-blocks :
      (len rounds i : ℕ) (t written : Bytes)
      → length written ≤ len
      → len ≤ length written + rounds * hash_len
      → expand_loop crypto hmac prk info len rounds i t
          (written ++ zeros (len - length written))
          (length written)
        ≡ ok (written ++ take (len - length written) (blocks h info rounds i t))
  unfolding expand_loop blocks concat_bytes
  expand_loop-blocks len zero i t written fits enough =
      let e : len - length written ≡ 0 = omega arith in rw e refl
  expand_loop-blocks len (suc rounds) i t written fits enough =
      let t' = h ((t ++ info) ++ i % 256 ∷ []) in
      let left = len - length written in
      let slice = take (min hash_len left) t' in
      let sliced = length-take (min hash_len left) t' in
      let t'-size = size ((t ++ info) ++ i % 256 ∷ []) in
      let joined = length-append written slice in
      let e1 : left - length slice ≡ len - length (written ++ slice) = omega (arith, joined) in
      let e2 : length written + length slice ≡ length (written ++ slice) = omega (arith, joined) in
      let e3 : len - length (written ++ slice) ≡ left - length t' =
        omega (arith, joined, sliced, t'-size) in
      rw (total ((t ++ info) ++ i % 256 ∷ []), set_bytes-zeros written slice left, e1, e2)
        (expand_loop-blocks len rounds (i + 1) t' (written ++ slice)
            (omega (arith, joined, sliced, t'-size)) (omega (arith, joined, sliced, t'-size))
          ∙ ap ok (
              append_assoc written slice _
              ∙ ap (◌++◌ written) (
                  rw (e3, take-min hash_len left t' (omega (arith, t'-size)))
                    (take-append-take left t' (blocks h info rounds (i + 1) t')))))
