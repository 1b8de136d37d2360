-- ===== src/Crypto/Ed25519/Signatures.antt =====
-- lib/ed25519.js: signing and verifying with the keys of one seed.
use new_zone_reference.Prelude.{
  ◌-◌, ◌≡◌, ap, true, not, ◌++◌, arith, ◌==◌, ==_iff, length, length-append,
}
use new_zone_reference.Crypto.Bytes.{Bytes}
use new_zone_reference.Crypto.Result.{ok, >>=-eq-ok, ok_inj, throw_if}
use new_zone_reference.Crypto.Ed25519.{
  Signer, ed25519_sign, ed25519_verify, ed25519_get_public_key, ed25519_sign_ctx,
  ed25519_verify_ctx, dom2, spki_prefix, pkcs8_prefix,
}

module _ (signer : Signer) where
  get_public_key-raw :
      (seed public : Bytes)
      → ed25519_get_public_key signer seed ≡ ok public
      → signer.raw_public (pkcs8_prefix ++ seed) ≡ public
  unfolding ed25519_get_public_key
  get_public_key-raw seed public h =
      let (u, sized, made) = >>=-eq-ok (throw_if (not (length seed == 32)) _) _ h in
      let raw = signer.raw_public (pkcs8_prefix ++ seed) in
      let cut : length (spki_prefix ++ raw) - 32 ≡ 12 =
        omega
          (arith, length-append spki_prefix raw, signer.length-raw_public (pkcs8_prefix ++ seed)) in
      ok_inj (rw cut at made)

  -- A signature that verifies has 64 bytes.
  pub ed25519_verify-length :
      (msg sig public : Bytes) → ed25519_verify signer msg sig public ≡ true → length sig ≡ 64
  unfolding ed25519_verify
  ed25519_verify-length msg sig public h = ground (arith, ==_iff (length sig) 64)

  -- What was signed with a seed verifies with the seed's public key.
  pub ed25519_verify-ed25519_sign :
      (msg seed sig public : Bytes)
      → ed25519_sign signer msg seed ≡ ok sig
      → ed25519_get_public_key signer seed ≡ ok public
      → ed25519_verify signer msg sig public ≡ true
  unfolding ed25519_sign ed25519_verify
  ed25519_verify-ed25519_sign msg seed sig public signed made =
      let (u, sized, done) = >>=-eq-ok (throw_if (not (length seed == 32)) _) _ signed in
      let same_sig : signer.sign (pkcs8_prefix ++ seed) msg ≡ sig = ok_inj done in
      let same_key = get_public_key-raw seed public made in
      rw (← same_sig, ← same_key)
        (ground (
          arith,
          signer.length-sign (pkcs8_prefix ++ seed) msg,
          signer.length-raw_public (pkcs8_prefix ++ seed),
          signer.verify-sign (pkcs8_prefix ++ seed) msg,
        ))

  -- What was signed with a seed under a context verifies with the seed's public key under the same
  -- context.
  pub ed25519_verify_ctx-ed25519_sign_ctx :
      (msg seed sig public context : Bytes)
      → ed25519_sign_ctx signer msg seed context ≡ ok sig
      → ed25519_get_public_key signer seed ≡ ok public
      → ed25519_verify_ctx signer public msg sig context ≡ ok true
  unfolding ed25519_sign_ctx ed25519_verify_ctx
  ed25519_verify_ctx-ed25519_sign_ctx msg seed sig public context signed made =
      let (dom, separated, done) = >>=-eq-ok (dom2 0x01 context) _ signed in
      rw separated (ap ok (ed25519_verify-ed25519_sign (dom ++ msg) seed sig public done made))
