-- ===== src/Services/Registration/Heartbeats.antt =====
-- lib/nz-lib.js and services/directory: what the heartbeats of a service do in the directory.
use new_zone_reference.Services.Registration.Lookup.{
  first_match, first_match-renew, first_match-other, update_heartbeat_unlisted, live_unlisted,
  first_match-live, first_match-append, is_match-own,
}
use new_zone_reference.Services.Directory.{
  max_services, register_service, Service, is_expired, update_heartbeat, cleanup_expired,
}
use new_zone_reference.Services.Directory.Server.{post_register, post_heartbeat}
use new_zone_reference.Services.Registration.{register_request, beat_body, local_url}
use new_zone_reference.Js.{
  prop, find_field, or_empty, or_else, truthy, Value, num, str, strict_equal,
}
use new_zone_reference.Prelude.{
  push_bounded, length, length-append, ltb, ◌<◌, ◌++◌, ◌∙◌, ℕ, ◌+◌, ◌≤◌, String, ◌≡◌, refl, ap,
  Bool, true, false, not, ◌&&◌, Option, none, some, List, [], ◌∷◌, arith,
}
use new_zone_reference.Prelude.Int.{ℤ, pos}
use new_zone_reference.Crypto.Routing.{Verified}
use new_zone_reference.Services.Directory.Expiry.{cleanup_expired-live}

-- What happens in the directory: a heartbeat of the service itself at the time at which it was sent
-- and the time at which it arrives, a heartbeat of whatever payload, and a cleanup.
pub data Step : Type 0 where
  beat : ℕ → ℕ → Step
  other : ℕ → Value → Step
  cleanup : ℕ → Step

module _ (property_key : Value → String) (verify : Value → Verified) (to_number : Value → Option ℤ)
    (role : String) (port ttl : ℕ) where
  unfoldable pub step : Step → List Service → List Service
  step (beat sent now) services =
      (post_heartbeat property_key verify now (beat_body role port ttl sent) services).0
  step (other now v) services = (post_heartbeat property_key verify now v services).0
  step (cleanup now) services = cleanup_expired to_number now services

  unfoldable pub run : List Step → List Service → List Service
  run [] services = services
  run (s ∷ steps) services = run steps (step s services)

  -- The payload names another service.
  abbrev pub is_other : Value → Bool
  is_other v = not (
      strict_equal (str role) (prop "role" (or_empty v))
      && strict_equal (str (local_url port)) (prop "url" (or_empty v)))

  -- Every cleanup comes within the time to live after a heartbeat has arrived, and the other
  -- heartbeats are those of other services.
  abbrev pub AreTimely : ℕ → List Step → Type 0
  AreTimely last_beat [] = Unit
  AreTimely last_beat (beat sent now ∷ steps) = AreTimely now steps
  AreTimely last_beat (other now v ∷ steps) = (is_other v ≡ true) × AreTimely last_beat steps
  AreTimely last_beat (cleanup now ∷ steps) = (now ≤ last_beat + ttl) × AreTimely last_beat steps

  -- The entry that the heartbeats renew, with the time of the last one.
  abbrev pub IsFresh : ℕ → List Service → Type 0
  IsFresh last_beat services =
      (s : Service) × (first_match (str role) (str (local_url port)) services ≡ some s)
      × (s.ts ≡ last_beat)
      × (s.ttl ≡ num (pos ttl))

  step-beat :
      (sent now : ℕ) (services : List Service)
      → step (beat sent now) services
        ≡ (update_heartbeat now (str role) (str (local_url port)) (num (pos ttl)) services).0
  unfolding step post_heartbeat beat_body prop find_field or_empty or_else truthy
  step-beat sent now services = refl

  not_expired :
      (last_beat now : ℕ) (s : Service)
      → to_number (num (pos ttl)) ≡ some (pos ttl)
      → s.ts ≡ last_beat
      → s.ttl ≡ num (pos ttl)
      → now ≤ last_beat + ttl
      → is_expired to_number now s ≡ false
  unfolding is_expired
  not_expired last_beat now s numeric stamped lived soon =
      let e : to_number s.ttl ≡ some (pos ttl) = ap to_number lived ∙ numeric in
      rw (is_expired, e, stamped) (ground arith)

  -- A service that is listed as of one heartbeat is still listed after any sequence of its own
  -- heartbeats, heartbeats of other services and cleanups, if every cleanup comes at most the
  -- time to live after the latest heartbeat, and the time to live converts to itself as a
  -- number.
  pub run-IsFresh :
      (steps : List Step) (last_beat : ℕ) (services : List Service)
      → to_number (num (pos ttl)) ≡ some (pos ttl)
      → IsFresh last_beat services
      → AreTimely last_beat steps
      → (later : ℕ) × IsFresh later (run steps services)
  unfolding run
  run-IsFresh [] last_beat services numeric fresh timely = (last_beat, fresh)
  run-IsFresh (beat sent now ∷ steps) last_beat services numeric (s, first, stamped, lived) timely =
      run-IsFresh steps now (step (beat sent now) services) numeric
        (
          record s { ts = now; ttl = num (pos ttl) },
          rw (step-beat sent now services) (
              first_match-renew (str role) (str (local_url port)) now (num (pos ttl)) services s
                first),
          refl,
          refl,
        )
        timely
  run-IsFresh (other now v ∷ steps) last_beat services numeric (s, first, stamped, lived)
        (apart, timely) =
      run-IsFresh steps last_beat (step (other now v) services) numeric
        (
          s,
          unfold step post_heartbeat in
              (first_match-other role (local_url port) (prop "role" (or_empty v))
                  (prop "url" (or_empty v)) now (prop "ttl" (or_empty v)) services (ground arith)
                ∙ first),
          stamped,
          lived,
        )
        timely
  run-IsFresh (cleanup now ∷ steps) last_beat services numeric (s, first, stamped, lived)
        (soon, timely) =
      run-IsFresh steps last_beat (step (cleanup now) services) numeric
        (
          s,
          unfold step in
              (rw (cleanup_expired-live to_number now services) (
                first_match-live to_number (str role) (str (local_url port)) now services s first
                  (not_expired last_beat now s numeric stamped lived soon))),
          stamped,
          lived,
        )
        timely

  -- Once the directory does not list the service, no heartbeat brings it back: it is not listed after
  -- any sequence of its own heartbeats, heartbeats of whatever payload and cleanups.
  pub run_unlisted :
      (steps : List Step) (services : List Service)
      → first_match (str role) (str (local_url port)) services ≡ none
      → first_match (str role) (str (local_url port)) (run steps services) ≡ none
  unfolding run step post_heartbeat
  run_unlisted [] services h = h
  run_unlisted (beat sent now ∷ steps) services h =
      run_unlisted steps (step (beat sent now) services)
        (update_heartbeat_unlisted _ _ _ _ now _ services h)
  run_unlisted (other now v ∷ steps) services h =
      run_unlisted steps (step (other now v) services)
        (update_heartbeat_unlisted _ _ _ _ now _ services h)
  run_unlisted (cleanup now ∷ steps) services h = run_unlisted steps (step (cleanup now) services) (
      rw (cleanup_expired-live to_number now services) (live_unlisted to_number _ _ now services h))

-- A service that registers with a directory that has room and does not list it yet is listed
-- after any sequence of its own heartbeats, heartbeats of other services and cleanups, if
-- every cleanup comes at most ten seconds after the registration or its latest heartbeat, and
-- the time to live converts to itself as a number.
pub run-register :
    (property_key : Value → String) (verify : Value → Verified) (to_number : Value → Option ℤ)
    (role : String) (port sent now : ℕ) (id : String) (steps : List Step) (services : List Service)
    → to_number (num (pos 10000)) ≡ some (pos 10000)
    → length services < max_services
    → first_match (str role) (str (local_url port)) services ≡ none
    → AreTimely property_key verify to_number role port 10000 now steps
    → let body = (register_request role port sent).body in
      let registered = (post_register property_key verify now id body services).0 in
      (later : ℕ) × IsFresh property_key verify to_number role port 10000 later
        (run property_key verify to_number role port 10000 steps registered)
unfolding post_register register_request register_service push_bounded prop find_field or_empty
    or_else truthy
run-register property_key verify to_number role port sent now id steps services numeric room absent
      timely =
    let entry : Service = record {
      id = id;
      role = str role;
      url = str (local_url port);
      ts = now;
      ttl = num (pos 10000);
    } in
    let fits : ltb max_services (length (services ++ entry ∷ [])) ≡ false =
      ground (arith, length-append services (entry ∷ [])) in
    rw fits (
      run-IsFresh property_key verify to_number role port 10000 steps now (services ++ entry ∷ [])
        numeric
        (
          entry,
          first_match-append (str role) (str (local_url port)) services entry absent
              ∙ rw (is_match-own role (local_url port) entry refl refl) refl,
          refl,
          refl,
        )
        timely)
