-- ===== src/Crypto/Channel/Nonces.antt =====
-- lib/secureChannel.js: the nonces of the messages that a channel sends.
use new_zone_reference.Prelude.{
  ℕ, suc, ◌+◌, ◌%◌, ◌^◌, ◌≤◌, ◌<◌, ◌≡◌, refl, sym, ap, ◌∙◌, ◌≢◌, ◌↔◌, List, [], ◌∷◌, ◌++◌, arith,
  length, take,
}
use new_zone_reference.Prelude.Sort.{All}
use new_zone_reference.Crypto.Bytes.{Bytes}
use new_zone_reference.Crypto.Result.{>>=-eq-ok, ok_inj}
use new_zone_reference.Crypto.Channel.{
  encrypt, encrypt_to_peer, err, Channel, ok, Message, Cipher, Result, counter_byte, make_nonce,
}

append-cancel : (xs : Bytes) {ys zs : Bytes} → xs ++ ys ≡ xs ++ zs → ys ≡ zs
append-cancel [] h = h
append-cancel (x ∷ xs) h = append-cancel xs (cc)

bytes_determine :
    (c d : ℕ)
    → counter_byte c 3 ≡ counter_byte d 3
    → counter_byte c 2 ≡ counter_byte d 2
    → counter_byte c 1 ≡ counter_byte d 1
    → counter_byte c 0 ≡ counter_byte d 0
    → c % 2 ^ 32 ≡ d % 2 ^ 32
unfolding counter_byte
bytes_determine c d h3 h2 h1 h0 = omega arith

-- With one nonce base of 12 bytes, two counters give the same nonce exactly if they agree modulo
-- 2^32.
pub make_nonce-eq_iff :
    (base : Bytes) (c d : ℕ)
    → length base ≡ 12
    → (make_nonce base c ≡ make_nonce base d) ↔ (c % 2 ^ 32 ≡ d % 2 ^ 32)
unfolding make_nonce
make_nonce-eq_iff base c d size = (same_counter, λ e. unfold counter_byte in rw e refl)
  where
    same_counter : make_nonce base c ≡ make_nonce base d → c % 2 ^ 32 ≡ d % 2 ^ 32
    same_counter h =
        let tails = append-cancel (take 8 base) (ok_inj (rw size at h)) in
        bytes_determine c d (cc) (cc) (cc) (cc)

-- The messages that a channel sends for a list of texts; a text whose encryption throws gives none.
unfoldable pub collect : Result Message → List Message → List Message
collect (ok m) rest = m ∷ rest
collect (err e) rest = rest

unfoldable pub send_all : Cipher → List Bytes → Channel → List Message
unfolding collect
send_all cipher [] c = []
send_all cipher (text ∷ texts) c =
    let (c', r) = encrypt_to_peer cipher text [] c in collect r (send_all cipher texts c')

-- No nonce is used twice.
abbrev pub AreFresh : List Message → Type 0
AreFresh [] = Unit
AreFresh (m ∷ ms) = All (λ n. m.nonce ≢ n.nonce) ms × AreFresh ms

-- A message whose nonce was made from a counter in a range.
record IsFrom (base : Bytes) (low high : ℕ) (m : Message) : Type 0 where
  made : make_nonce base m.counter ≡ ok m.nonce
  above : low ≤ m.counter
  below : m.counter < high

All-weaken :
    (base : Bytes) (low low' high : ℕ) (ms : List Message)
    → low ≤ low'
    → All (IsFrom base low' high) ms
    → All (IsFrom base low high) ms
All-weaken base low low' high [] h t = tt
All-weaken base low low' high (m ∷ ms) h t = (
  record { made = t.0.made; above = omega arith; below = t.0.below },
  All-weaken base low low' high ms h t.1,
)

collect-IsFrom :
    {base : Bytes} {low high : ℕ} (r : Result Message) (rest : List Message)
    → ((m : Message) → r ≡ ok m → IsFrom base low high m)
    → All (IsFrom base low high) rest
    → All (IsFrom base low high) (collect r rest)
unfolding collect
collect-IsFrom (ok m) rest h t = (h m refl, t)
collect-IsFrom (err e) rest h t = t

sent-IsFrom :
    (cipher : Cipher) (text : Bytes) (c : Channel) (m : Message) (n : ℕ)
    → (encrypt_to_peer cipher text [] c).1 ≡ ok m
    → IsFrom c.send_nonce_base c.send_counter (c.send_counter + suc n) m
unfolding encrypt_to_peer
sent-IsFrom cipher text c m n e =
    let (nonce, made, e1) = >>=-eq-ok (make_nonce c.send_nonce_base c.send_counter) _ e in
    let (sealed, done, e2) = >>=-eq-ok (encrypt cipher c.send_key nonce text []) _ e1 in
    rw (← ok_inj e2) (record { made = made; above = omega arith; below = omega arith })

sent-nonce :
    (cipher : Cipher) (text : Bytes) (c : Channel) (m : Message)
    → (encrypt_to_peer cipher text [] c).1 ≡ ok m
    → make_nonce c.send_nonce_base c.send_counter ≡ ok m.nonce
unfolding encrypt_to_peer
sent-nonce cipher text c m e =
    let (nonce, made, e1) = >>=-eq-ok (make_nonce c.send_nonce_base c.send_counter) _ e in
    let (sealed, done, e2) = >>=-eq-ok (encrypt cipher c.send_key nonce text []) _ e1 in
    rw (← ok_inj e2) made

send_all-IsFrom :
    (cipher : Cipher) (texts : List Bytes) (c : Channel)
    → All
        (IsFrom c.send_nonce_base c.send_counter (c.send_counter + length texts))
        (send_all cipher texts c)
unfolding send_all encrypt_to_peer
send_all-IsFrom cipher [] c = tt
send_all-IsFrom cipher (text ∷ texts) c =
    let c' : Channel = record c { send_counter = c.send_counter + 1 } in
    let bound : c.send_counter + 1 + length texts ≡ c.send_counter + suc (length texts) =
      omega arith in
    let rest =
      All-weaken c.send_nonce_base c.send_counter (c.send_counter + 1)
        (c.send_counter + suc (length texts)) (send_all cipher texts c') (omega arith)
        (rw bound at (send_all-IsFrom cipher texts c')) in
    collect-IsFrom (encrypt_to_peer cipher text [] c).1 (send_all cipher texts c')
      (λ m e. sent-IsFrom cipher text c m (length texts) e) rest

differ :
    (base : Bytes) (counter limit : ℕ) (m : Message) (ms : List Message)
    → length base ≡ 12
    → limit ≤ counter + 2 ^ 32
    → make_nonce base counter ≡ ok m.nonce
    → All (IsFrom base (counter + 1) limit) ms
    → All (λ n. m.nonce ≢ n.nonce) ms
differ base counter limit m [] size short made t = tt
differ base counter limit m (n ∷ ms) size short made t = (
  λ e.
      let same =
        (make_nonce-eq_iff base counter n.counter size).0 (made ∙ ap ok e ∙ sym t.0.made) in
      omega (arith, t.0.above, t.0.below),
  differ base counter limit m ms size short made t.1,
)

collect-AreFresh :
    (r : Result Message) (rest : List Message)
    → ((m : Message) → r ≡ ok m → All (λ n. m.nonce ≢ n.nonce) rest)
    → AreFresh rest
    → AreFresh (collect r rest)
unfolding collect
collect-AreFresh (ok m) rest h t = (h m refl, t)
collect-AreFresh (err e) rest h t = t

-- A channel with a nonce base of 12 bytes that sends at most 2^32 texts in a row, with no rekeying
-- between them, uses a different nonce for every message.
pub send_all-AreFresh :
    (cipher : Cipher) (texts : List Bytes) (c : Channel)
    → length c.send_nonce_base ≡ 12
    → length texts ≤ 2 ^ 32
    → AreFresh (send_all cipher texts c)
unfolding send_all encrypt_to_peer
send_all-AreFresh cipher [] c size short = tt
send_all-AreFresh cipher (text ∷ texts) c size short =
    let c' : Channel = record c { send_counter = c.send_counter + 1 } in
    collect-AreFresh (encrypt_to_peer cipher text [] c).1 (send_all cipher texts c')
      (λ m e.
        differ c.send_nonce_base c.send_counter (c.send_counter + 1 + length texts) m
          (send_all cipher texts c') size (omega arith) (sent-nonce cipher text c m e)
          (send_all-IsFrom cipher texts c'))
      (send_all-AreFresh cipher texts c' size (omega arith))
