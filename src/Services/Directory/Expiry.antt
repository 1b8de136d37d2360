-- ===== src/Services/Directory/Expiry.antt =====
-- services/directory/index.js: registration, heartbeats and expiry.
use new_zone_reference.Js.{Value}
use new_zone_reference.Prelude.{
  str_eq, inl, inr, Bool-cases, ◌+◌, ◌≤◌, eq_iff, true, false, none, some, Bool, Option, String, ℕ,
  zero, suc, ◌≡◌, refl, not, List, [], ◌∷◌, filter, ap, ◌∙◌, sym, arith, length,
}
use mathlib.Core.Option
use mathlib.Core.Bool.{◌||◌}
use new_zone_reference.Prelude.Dict.{Dict, get, put, get-put}
use new_zone_reference.Prelude.Int.{ℤ, pos, sub_ℕ, ltb_ℤ}
use new_zone_reference.Services.Directory.{
  is_match, listing, Listing, list_services, list_from, update_heartbeat, Service, is_expired,
  drop_expired, cleanup_below, cleanup_expired,
}

-- `to_number` is the number that a comparison converts a value to, if it is one.
module _ (to_number : Value → Option ℤ) where
  abbrev pub live : ℕ → List Service → List Service
  live now services = filter (λ s. not (is_expired to_number now s)) services

  -- What the loop has done when the index is `i`: the part from `i` on is filtered.
  filtered_from : ℕ → ℕ → List Service → List Service
  filtered_from now zero services = live now services
  filtered_from now (suc i) [] = []
  filtered_from now (suc i) (s ∷ services) = s ∷ filtered_from now i services

  filtered_from_step :
      (now i : ℕ) (services : List Service)
      → drop_expired to_number now i (filtered_from now (suc i) services)
        ≡ filtered_from now i services
  unfolding filtered_from drop_expired
  filtered_from_step now zero [] = refl
  filtered_from_step now zero (s ∷ services) = ground arith
  filtered_from_step now (suc i) [] = refl
  filtered_from_step now (suc i) (s ∷ services) = ap (◌∷◌ s) (filtered_from_step now i services)

  filtered_from_all :
      (now : ℕ) (services : List Service) → filtered_from now (length services) services ≡ services
  unfolding filtered_from
  filtered_from_all now [] = refl
  filtered_from_all now (s ∷ services) = ap (◌∷◌ s) (filtered_from_all now services)

  cleanup_below-live :
      (now i : ℕ) (services : List Service)
      → cleanup_below to_number now i (filtered_from now i services) ≡ live now services
  unfolding cleanup_below filtered_from
  cleanup_below-live now zero services = refl
  cleanup_below-live now (suc i) services =
      rw (filtered_from_step now i services) (cleanup_below-live now i services)

  -- The downward loop with `splice` removes exactly the services that have expired, and keeps the
  -- others in their order.
  pub cleanup_expired-live :
      (now : ℕ) (services : List Service)
      → cleanup_expired to_number now services ≡ live now services
  unfolding cleanup_expired
  cleanup_expired-live now services =
      ap (cleanup_below to_number now (length services)) (sym (filtered_from_all now services))
      ∙ cleanup_below-live now (length services) services

  -- Some service has the role and the URL.
  abbrev pub is_listed : Value → Value → List Service → Bool
  is_listed role url [] = false
  is_listed role url (s ∷ services) = is_match role url s || is_listed role url services

  is_listed-keep :
      (role url : Value) (later : ℕ) (s : Service) (services : List Service)
      → is_listed role url (live later services) ≡ true
      → is_listed role url (live later (s ∷ services)) ≡ true
  is_listed-keep role url later s services h = ground arith

  heartbeat-live :
      (now : ℕ) (role url : Value) (ttl : Value) (later : ℕ) (services : List Service)
      → (elim (to_number ttl) [ none ↦ false | some t ↦ ltb_ℤ t (sub_ℕ later now) ]) ≡ false
      → (update_heartbeat now role url ttl services).1 ≡ true
      → is_listed role url (live later (update_heartbeat now role url ttl services).0) ≡ true
  unfolding update_heartbeat is_expired
  heartbeat-live now role url ttl later [] fresh found = cc
  heartbeat-live now role url ttl later (s ∷ services) fresh found =
      elim (Bool-cases (is_match role url s)) [
        | inl here ↦ rw here (rw fresh (unfold is_match in ground arith))
        | inr there ↦ rw there (
            is_listed-keep role url later s (update_heartbeat now role url ttl services).0
              (heartbeat-live now role url ttl later services fresh (rw there at found)))
      ]

  -- A heartbeat that finds its service keeps it listed through every cleanup until its time to live is
  -- over.
  pub update_heartbeat-cleanup_expired :
      (now : ℕ) (role url : Value) (services : List Service) (ttl : Value) (n later : ℕ)
      → (update_heartbeat now role url ttl services).1 ≡ true
      → to_number ttl ≡ some (pos n)
      → later ≤ now + n
      → is_listed role url
          (cleanup_expired to_number later (update_heartbeat now role url ttl services).0)
        ≡ true
  update_heartbeat-cleanup_expired now role url services ttl n later found numeric h =
      rw (cleanup_expired-live later)
        (heartbeat-live now role url ttl later services (rw numeric (ground arith)) found)

  -- A heartbeat without a numeric time to live that finds its service keeps it listed through every
  -- cleanup, however late.
  pub heartbeat_immortal :
      (now : ℕ) (role url : Value) (services : List Service) (ttl : Value) (later : ℕ)
      → to_number ttl ≡ none
      → (update_heartbeat now role url ttl services).1 ≡ true
      → is_listed role url
          (cleanup_expired to_number later (update_heartbeat now role url ttl services).0)
        ≡ true
  heartbeat_immortal now role url services ttl later no_number found =
      rw (cleanup_expired-live later)
        (heartbeat-live now role url ttl later services (rw no_number refl) found)

abbrev pub last? : List Service → Option Service
last? [] = none
last? (s ∷ services) = elim (last? services) [ none ↦ some s | some t ↦ some t ]

abbrev shown : Option Service → Option Listing → Option Listing
shown none before = before
shown (some s) before = some (listing s)

shown-none : (o : Option Service) → shown o none ≡ Option.map listing o
shown-none none = refl
shown-none (some s) = refl

-- The services whose role is converted to a name.
abbrev pub named : (Value → String) → String → List Service → List Service
named property_key role services = filter (λ s. str_eq (property_key s.role) role) services

module _ (property_key : Value → String) where
  get-list_from :
      (role : String) (out : Dict Listing) (services : List Service)
      → get role (list_from property_key out services)
        ≡ shown (last? (named property_key role services)) (get role out)
  unfolding list_from
  get-list_from role out [] = refl
  get-list_from role out (s ∷ services) = ground (
    arith,
    get-list_from role (put (property_key s.role) (listing s) out) services,
    get-put (property_key s.role) role (listing s) out,
    eq_iff (property_key s.role) role,
  )

  -- `listServices` shows under each role the service whose role is that name which stands last in the registry,
  -- and nothing under a role that no service has.
  pub list_services-last :
      (role : String) (services : List Service)
      → get role (list_services property_key services)
        ≡ Option.map listing (last? (named property_key role services))
  unfolding list_services get
  list_services-last role services =
      get-list_from role [] services ∙ shown-none (last? (named property_key role services))
