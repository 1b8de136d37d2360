-- ===== src/Services/Directory.antt =====
-- services/directory/index.js: the service registry with heartbeats and expiry.
pub mod Expiry
pub mod Server
use new_zone_reference.Js.{Value, num, str, strict_equal}
use new_zone_reference.Prelude.{
  ℕ, zero, suc, String, Bool, true, false, ◌&&◌, Option, none, some, List, [], ◌∷◌, ◌++◌,
  push_bounded, str_eq, filter, length, if◌then◌else◌,
}
use new_zone_reference.Prelude.Dict.{Dict, put}
use new_zone_reference.Prelude.Int.{ℤ, pos, sub_ℕ, ltb_ℤ}

pub record Service : Type 0 where
  pub id : String
  pub role : Value
  pub url : Value
  pub ts : ℕ
  pub ttl : Value

abbrev pub max_services : ℕ
max_services = 200

-- `registerService`; `id` is the random identifier.
unfoldable pub register_service : String → ℕ → Value → Value → List Service → List Service × Service
register_service id now role url services =
    let entry : Service = record {
      id = id;
      role = role;
      url = url;
      ts = now;
      ttl = num (pos 10000);
    } in
    (push_bounded max_services entry services, entry)

unfoldable pub is_match : Value → Value → Service → Bool
is_match role url s = strict_equal s.role role && strict_equal s.url url

-- `updateHeartbeat`: the first service with the role and the URL is renewed.
unfoldable pub update_heartbeat : ℕ → Value → Value → Value → List Service → List Service × Bool
unfolding is_match
update_heartbeat now role url ttl [] = ([], false)
update_heartbeat now role url ttl (s ∷ services) =
    let (services', found) = update_heartbeat now role url ttl services in
    if is_match role url s
    then (record s { ts = now; ttl = ttl } ∷ services, true)
    else (s ∷ services', found)

-- `to_number` is the number that `>` converts a value to: an integer, or NaN (`none`), as of the
-- `undefined` that a request without the field leaves.
module _ (to_number : Value → Option ℤ) where
  -- `now - s.ts > s.ttl`
  unfoldable pub is_expired : ℕ → Service → Bool
  is_expired now s = elim (to_number s.ttl) [ none ↦ false | some ttl ↦ ltb_ℤ ttl (sub_ℕ now s.ts) ]

  -- `SERVICES.splice(i, 1)` if the service at `i` has expired.
  unfoldable pub drop_expired : ℕ → ℕ → List Service → List Service
  drop_expired now i [] = []
  drop_expired now zero (s ∷ services) = if is_expired now s then services else s ∷ services
  drop_expired now (suc i) (s ∷ services) = s ∷ drop_expired now i services

  -- The loop of `cleanupExpired`, from the index below `n` down to 0.
  unfoldable pub cleanup_below : ℕ → ℕ → List Service → List Service
  unfolding drop_expired
  cleanup_below now zero services = services
  cleanup_below now (suc i) services = cleanup_below now i (drop_expired now i services)

  -- `cleanupExpired`
  unfoldable pub cleanup_expired : ℕ → List Service → List Service
  unfolding cleanup_below
  cleanup_expired now services = cleanup_below now (length services) services

-- What `listServices` shows of a service.
pub record Listing : Type 0 where
  pub id : String
  pub url : Value
  pub ts : ℕ
  pub ttl : Value

unfoldable pub listing : Service → Listing
listing s = record { id = s.id; url = s.url; ts = s.ts; ttl = s.ttl }

-- `property_key` converts a value to the name of a property, here one other than `__proto__`.
module _ (property_key : Value → String) where
  -- The loop of `listServices`; a later service of a role replaces an earlier one.
  unfoldable pub list_from : Dict Listing → List Service → Dict Listing
  unfolding listing
  list_from out [] = out
  list_from out (s ∷ services) = list_from (put (property_key s.role) (listing s) out) services

  unfoldable pub list_services : List Service → Dict Listing
  unfolding list_from
  list_services services = list_from [] services

-- `findByRole`
unfoldable pub find_by_role : String → List Service → List Service
find_by_role role services = filter (λ s. strict_equal s.role (str role)) services

-- `removeService`: `findIndex` and `splice`.
unfoldable pub remove_service : String → List Service → List Service
remove_service id [] = []
remove_service id (s ∷ services) =
    if str_eq s.id id then services else s ∷ remove_service id services
