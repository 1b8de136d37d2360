-- ===== src/Services/Gateway/Server/Firewall.antt =====
-- services/gateway/server.js: the check of signed packets.
use new_zone_reference.Services.Http.{json, empty, malformed, Body, Response, reply, unanswered}
use new_zone_reference.Js.{undefined, null, bool, num, str, arr, obj, prop, Value}
use new_zone_reference.Services.Gateway.Server.{show_checked, post_verify, check_signed}
use new_zone_reference.Prelude.{Option, ℕ, ◌≡◌, refl, ◌≢◌, true, none, some, arith, ==_iff, length}
use new_zone_reference.Crypto.Facade.Signed.{Checked, accepted, refused, thrown}
use new_zone_reference.Crypto.Facade.Signed.Acceptance.{verify_signed_packet-accepted}
use new_zone_reference.Crypto.Bytes.{Bytes}
use new_zone_reference.Crypto.Result.{ok, err, Result}
use new_zone_reference.Crypto.Aead.{Cipher}
use new_zone_reference.Crypto.Ed25519.{Signer, ed25519_verify}
use new_zone_reference.Crypto.Facade.{Tools}

abbrev pub status : Response → ℕ
status (reply code v) = code
status unanswered = 0

module _ (tools : Tools) (signer : Signer) (cipher : Cipher)
    (known_key : Value → Option Bytes) where
  ed25519_verify-length :
      (text sig public : Bytes) → ed25519_verify signer text sig public ≡ true → length public ≡ 32
  unfolding ed25519_verify
  ed25519_verify-length text sig public h = ground (arith, ==_iff (length public) 32)

  show_checked-accepted :
      (checked : Checked)
      → status (show_checked checked) ≡ 200
      → (node_id : Value) × (checked ≡ accepted node_id)
  unfolding show_checked
  show_checked-accepted (accepted node_id) h = (node_id, refl)
  show_checked-accepted (refused reason) h = absurd (ground arith)
  show_checked-accepted thrown h = absurd (ground arith)

  check_signed-refused :
      (now : ℕ) (signed : Result Value)
      → ((node : Value) (key : Bytes) → known_key node ≡ some key → length key ≡ 44)
      → status (check_signed tools signer cipher known_key now signed) ≢ 200
  unfolding check_signed
  check_signed-refused now (err e) der h = ground arith
  check_signed-refused now (ok signed) der h =
      let (node_id, acc) = show_checked-accepted _ h in
      let (public, sig, hashed, fresh, near, known, decoded, verified, named) =
        verify_signed_packet-accepted tools signer now known_key 300 none signed node_id acc in
      ground (
        arith,
        der (prop "node_id" (prop "auth" signed)) public known,
        ed25519_verify-length _ sig public verified,
      )

  -- As long as the keys that the gateway has for the nodes are DER encodings of 44 bytes, which is what
  -- the announcements of the nodes hold, POST /verify accepts no body at all.
  pub post_verify-refused :
      (now : ℕ) (body : Body)
      → ((node : Value) (key : Bytes) → known_key node ≡ some key → length key ≡ 44)
      → status (post_verify tools signer cipher known_key now body) ≢ 200
  unfolding post_verify
  post_verify-refused now empty der h = ground arith
  post_verify-refused now malformed der h = ground arith
  post_verify-refused now (json undefined) der h = ground arith
  post_verify-refused now (json null) der h = ground arith
  post_verify-refused now (json (bool b)) der h = check_signed-refused now _ der h
  post_verify-refused now (json (num n)) der h = check_signed-refused now _ der h
  post_verify-refused now (json (str s)) der h = check_signed-refused now _ der h
  post_verify-refused now (json (arr xs)) der h = check_signed-refused now _ der h
  post_verify-refused now (json (obj fs)) der h = check_signed-refused now _ der h
