-- ===== src/Services/Registration/Lookup.antt =====
-- services/directory/index.js: the first service with a role and a URL, which a heartbeat renews.
use new_zone_reference.Prelude.{
  eq_refl, ◌++◌, ℕ, String, ◌≡◌, refl, ap, inl, inr, true, false, ◌&&◌, Option, none, some, List,
  [], ◌∷◌, arith, eq_iff, if◌then◌else◌, Bool-cases,
}
use new_zone_reference.Prelude.Int.{negsuc, ℤ, pos}
use new_zone_reference.Js.{undefined, null, bool, arr, Value, num, str, obj, strict_equal}
use new_zone_reference.Services.Directory.{Service, is_match, is_expired, update_heartbeat}
use new_zone_reference.Services.Directory.Expiry.{live}

abbrev pub first_match : Value → Value → List Service → Option Service
first_match role url [] = none
first_match role url (s ∷ services) =
    if is_match role url s then some s else first_match role url services

pub is_match_renewed :
    (role url : Value) (s : Service) (now : ℕ) (ttl : Value)
    → is_match role url (record s { ts = now; ttl = ttl }) ≡ is_match role url s
unfolding is_match
is_match_renewed role url s now ttl = refl

some_inj : (s t : Service) → some s ≡ some t → s ≡ t
some_inj s t h = ap (λ o. elim o [ none ↦ s | some r ↦ r ]) h

strict_equal-str : (v : Value) (t : String) → strict_equal v (str t) ≡ true → v ≡ str t
unfolding strict_equal
strict_equal-str (str s) t h = ap str ((eq_iff s t).0 h)
strict_equal-str undefined t h = absurd (cc)
strict_equal-str null t h = absurd (cc)
strict_equal-str (bool b) t h = absurd (cc)
strict_equal-str (num (pos n)) t h = absurd (cc)
strict_equal-str (num (negsuc n)) t h = absurd (cc)
strict_equal-str (arr xs) t h = absurd (cc)
strict_equal-str (obj fs) t h = absurd (cc)

-- A service that matches two texts has them.
is_match-same :
    (role url : String) (role' url' : Value) (s : Service)
    → is_match (str role) (str url) s ≡ true
    → is_match role' url' s ≡ true
    → (strict_equal (str role) role' && strict_equal (str url) url') ≡ true
unfolding is_match
is_match-same role url role' url' s h h' =
    let r = strict_equal-str s.role role (ground arith) in
    let u = strict_equal-str s.url url (ground arith) in rw (← r, ← u) h'

pub first_match-renew :
    (role url : Value) (now : ℕ) (ttl : Value) (services : List Service) (s : Service)
    → first_match role url services ≡ some s
    → first_match role url (update_heartbeat now role url ttl services).0
      ≡ some (record s { ts = now; ttl = ttl })
unfolding update_heartbeat
first_match-renew role url now ttl [] s h = cc
first_match-renew role url now ttl (t ∷ services) s h = elim (Bool-cases (is_match role url t)) [
  | inl here ↦
      rw (here, is_match_renewed role url t now ttl, here, some_inj t s (rw here at h)) refl
  | inr there ↦ rw (there, there) (first_match-renew role url now ttl services s (rw there at h))
]

pub first_match-other :
    (role url : String) (role' url' : Value) (now : ℕ) (ttl : Value) (services : List Service)
    → (strict_equal (str role) role' && strict_equal (str url) url') ≡ false
    → first_match (str role) (str url) (update_heartbeat now role' url' ttl services).0
      ≡ first_match (str role) (str url) services
unfolding update_heartbeat
first_match-other role url role' url' now ttl [] apart = refl
first_match-other role url role' url' now ttl (t ∷ services) apart =
    elim (Bool-cases (is_match role' url' t)) [
      | inr there ↦
          rw there (ground (arith, first_match-other role url role' url' now ttl services apart))
      | inl here ↦ elim (Bool-cases (is_match (str role) (str url) t)) [
        | inl both ↦ absurd (ground (arith, is_match-same role url role' url' t both here))
        | inr ours ↦ rw (here, is_match_renewed (str role) (str url) t now ttl, ours) refl
      ]
    ]

pub update_heartbeat_unlisted :
    (role url role' url' : Value) (now : ℕ) (ttl : Value) (services : List Service)
    → first_match role url services ≡ none
    → first_match role url (update_heartbeat now role' url' ttl services).0 ≡ none
unfolding update_heartbeat
update_heartbeat_unlisted role url role' url' now ttl [] h = refl
update_heartbeat_unlisted role url role' url' now ttl (t ∷ services) h = ground (
  arith,
  is_match_renewed role url t now ttl,
  update_heartbeat_unlisted role url role' url' now ttl services,
)

pub live_unlisted :
    (to_number : Value → Option ℤ) (role url : Value) (now : ℕ) (services : List Service)
    → first_match role url services ≡ none
    → first_match role url (live to_number now services) ≡ none
live_unlisted to_number role url now [] h = refl
live_unlisted to_number role url now (t ∷ services) h =
    ground (arith, live_unlisted to_number role url now services)

pub first_match-live :
    (to_number : Value → Option ℤ) (role url : Value) (now : ℕ) (services : List Service)
    (s : Service)
    → first_match role url services ≡ some s
    → is_expired to_number now s ≡ false
    → first_match role url (live to_number now services) ≡ some s
first_match-live to_number role url now [] s h fresh = cc
first_match-live to_number role url now (t ∷ services) s h fresh =
    elim (Bool-cases (is_match role url t)) [
      | inl here ↦
          let same = some_inj t s (rw here at h) in
          let kept : is_expired to_number now t ≡ false = rw same fresh in
          rw (kept, here, same) refl
      | inr there ↦
          ground (arith, first_match-live to_number role url now services s (rw there at h) fresh)
    ]

pub first_match-append :
    (role url : Value) (services : List Service) (s : Service)
    → first_match role url services ≡ none
    → first_match role url (services ++ s ∷ []) ≡ (if is_match role url s then some s else none)
first_match-append role url [] s h = refl
first_match-append role url (t ∷ services) s h =
    ground (arith, first_match-append role url services s)

pub is_match-own :
    (role url : String) (s : Service)
    → s.role ≡ str role
    → s.url ≡ str url
    → is_match (str role) (str url) s ≡ true
unfolding is_match strict_equal
is_match-own role url s named located = rw (named, located, eq_refl role, eq_refl url) refl
