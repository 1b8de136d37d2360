-- ===== src/Services/Registration.antt =====
-- lib/nz-lib.js and lib/generate-node-keys.js: how a service announces itself to the directory, and the
-- keys that it makes when it has none.
pub mod Lookup
pub mod Heartbeats
use new_zone_reference.Prelude.{
  zero, suc, ◌/◌, ◌%◌, ltb, if◌then◌else◌, ℕ, ◌+◌, ◌-◌, ◌*◌, ◌^◌, ◌≤◌, ◌<◌, String, ◌≡◌, refl, sym,
  ap, ◌∙◌, ◌≢◌, ◌↔◌, ◌⊎◌, inl, inr, Bool, true, false, not, ◌&&◌, ◌||◌, Option, none, some, List,
  [], ◌∷◌, ◌++◌, map, append_assoc, append-nil, arith, str_eq, eq_iff, eq_refl, leb, ◌==◌, ltb→lt,
  lt→ltb, leb→le, ==_iff, Bool-cases, Option-cases, List-cases, length, take, drop, replicate,
  filter, length-append, length-take, length-drop, length-replicate, length-filter, length-map,
  take-append-drop, take-append, drop-append, take_of_le, drop-append_of_le, drop-drop, drop-nil,
  last, length-last, last_of_le, last-last, push_bounded, length-push_bounded, push_bounded-last,
  push_all, push_all-last,
}
use Prim.Native.String as Text
use new_zone_reference.Prelude.Int.{ℤ, pos}
use new_zone_reference.Js.{Value, num, str, obj, end, field}
use new_zone_reference.Crypto.Routing.{NodeKeys}
use new_zone_reference.Services.Http.{Method, post, Body, json}
use new_zone_reference.Services.Ports.{Outgoing, directory}

unfoldable pub digit : ℕ → String
digit n = Text.slice "0123456789" n (n + 1)

-- The digits of a number, with a bound on how many.
unfoldable pub digits : ℕ → ℕ → String
unfolding digit
digits zero n = ""
digits (suc fuel) n =
    let rest = digits fuel (n / 10) in if ltb n 10 then digit n else Text.◌++◌ rest (digit (n % 10))

-- `http://localhost:${port}`; a port has five digits at most.
unfoldable pub local_url : ℕ → String
unfolding digits
local_url port = Text.◌++◌ "http://localhost:" (digits 5 port)

unfoldable pub register_request : String → ℕ → ℕ → Outgoing
unfolding local_url
register_request role port now = record {
  service = directory;
  method = post;
  path = "/register";
  body = obj (
      field "role" (str role)
        (field "url" (str (local_url port)) (field "ts" (num (pos now)) end)));
}

-- An attempt of `autoRegister`: its time, and whether the directory was there.
pub record Attempt : Type 0 where
  pub now : ℕ
  pub reached : Bool

-- `autoRegister`: the requests that it makes, given what becomes of each attempt; the first that
-- reaches the directory is the last.
unfoldable pub auto_register : String → ℕ → List Attempt → List Outgoing
unfolding register_request
auto_register role port [] = []
auto_register role port (a ∷ attempts) =
    let later = auto_register role port attempts in
    register_request role port a.now ∷ (if a.reached then [] else later)

-- The body of a beat of `startHeartbeat`.
unfoldable pub beat_body : String → ℕ → ℕ → ℕ → Value
unfolding local_url
beat_body role port ttl_ms now = obj (
    field "role" (str role) (
      field "url" (str (local_url port))
        (field "ts" (num (pos now)) (field "ttl" (num (pos ttl_ms)) end))))

-- The time of a beat: one at the start, and then one in every half of the time to live.
unfoldable pub beat_time : ℕ → ℕ → ℕ → ℕ
beat_time start ttl_ms k = start + k * (ttl_ms / 2)

-- `generateNodeKeysIfMissing`: the keys, and whether they were written to the file. The file is given
-- as it was found, the key pair and the random text as they would be generated.
unfoldable pub generate_node_keys_if_missing : Body → String → NodeKeys → String → Value × Bool
generate_node_keys_if_missing (json v) service_name pair hex = (v, false)
generate_node_keys_if_missing body service_name pair hex = (
  obj (
      field "node_id" (str (Text.◌++◌ service_name (Text.◌++◌ "." hex))) (
        field "ed25519_public" (str pair.ed25519_public)
          (field "ed25519_private" (str pair.ed25519_private) end))),
  true,
)
