-- ===== src/Services/Replication.antt =====
-- services/replication/index.js: the merge of a peer's data into the local data.
pub mod Merge
pub mod Server
pub mod Push
use new_zone_reference.Prelude.{
  ℕ, zero, suc, ◌+◌, ◌-◌, ◌*◌, ◌/◌, ◌%◌, ◌^◌, ◌≤◌, ◌<◌, String, ◌≡◌, refl, sym, ap, ◌∙◌, ◌≢◌, ◌↔◌,
  ◌⊎◌, inl, inr, Bool, true, false, not, ◌&&◌, ◌||◌, Option, none, some, List, [], ◌∷◌, ◌++◌, map,
  append_assoc, append-nil, arith, str_eq, eq_iff, eq_refl, ltb, leb, ◌==◌, if◌then◌else◌, ltb→lt,
  lt→ltb, leb→le, ==_iff, Bool-cases, Option-cases, List-cases, length, take, drop, replicate,
  filter, length-append, length-take, length-drop, length-replicate, length-filter, length-map,
  take-append-drop, take-append, drop-append, take_of_le, drop-append_of_le, drop-drop, drop-nil,
  last, length-last, last_of_le, last-last, push_bounded, length-push_bounded, push_bounded-last,
  push_all, push_all-last,
}
use new_zone_reference.Prelude.Dict.{Dict, get, put, values}
use new_zone_reference.Prelude.Sort.{sort_by}
use new_zone_reference.Js.{Value}
use new_zone_reference.Js.Object.{Slot, own, inherited, missing, read}

-- A time stamp is a natural number, or not there: `none` is the `undefined` whose comparisons fail.
-- `body` is the rest of the object.
pub record Stamped : Type 0 where
  pub ts : Option ℕ
  pub body : Value

pub record Event : Type 0 where
  pub ts : ℕ
  pub body : Value

pub record Rule : Type 0 where
  pub id : String
  pub ts : Option ℕ
  pub body : Value

pub record Dump : Type 0 where
  pub state : Dict Stamped
  pub events : List Event
  pub rules : List Rule

abbrev pub max_events : ℕ
max_events = 200

abbrev pub empty : Dump
empty = record { state = []; events = []; rules = [] }

-- `a > b`
unfoldable pub is_later : Option ℕ → Option ℕ → Bool
is_later (some a) (some b) = ltb b a
is_later a b = false

-- `!local || remote.ts > local.ts`; an inherited function has no time stamp.
unfoldable pub takes : Option ℕ → Slot (Option ℕ) → Bool
unfolding is_later
takes ts missing = true
takes ts inherited = false
takes ts (own before) = is_later ts before

unfoldable pub ts_slot {ℓ} : {V : Type ℓ} → (V → Option ℕ) → Slot V → Slot (Option ℕ)
ts_slot ts missing = missing
ts_slot ts inherited = inherited
ts_slot ts (own v) = own (ts v)

-- The loop over `incoming.state`, for keys other than `__proto__`.
unfoldable pub merge_state : Dict Stamped → Dict Stamped → Dict Stamped
unfolding takes ts_slot read
merge_state [] state = state
merge_state ((key, remote) ∷ incoming) state =
    merge_state incoming (
      if takes remote.ts (ts_slot (λ e. e.ts) (read key state))
      then put key remote state
      else state)

-- The local and the incoming events in the order of time, the newest 200 of them.
unfoldable pub merge_events : List Event → List Event → List Event
merge_events incoming events = last max_events (sort_by (λ e. e.ts) (events ++ incoming))

-- The loop that fills `ruleMap`.
unfoldable pub collect_rules : List Rule → Dict Rule → Dict Rule
unfolding takes ts_slot read
collect_rules [] map = map
collect_rules (r ∷ rules) map =
    collect_rules rules
      (if takes r.ts (ts_slot (λ q. q.ts) (read r.id map)) then put r.id r map else map)

unfoldable pub merge_rules : List Rule → List Rule → List Rule
unfolding collect_rules
merge_rules incoming rules = values (collect_rules (rules ++ incoming) [])

-- `mergeData`, of a dump that has all three parts.
unfoldable pub merge_data : Dump → Dump → Dump
unfolding merge_state merge_events merge_rules
merge_data incoming data' = record {
  state = merge_state incoming.state data'.state;
  events = merge_events incoming.events data'.events;
  rules = merge_rules incoming.rules data'.rules;
}

-- `dumpData`
unfoldable pub dump_data : Dump → Dump
dump_data data' = data'
