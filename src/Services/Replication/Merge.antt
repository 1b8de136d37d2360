-- ===== src/Services/Replication/Merge.antt =====
-- services/replication/index.js: what a merge keeps.
use Prim.Native.Nat.{min}
use new_zone_reference.Prelude.{
  ℕ, zero, suc, ◌+◌, ◌-◌, String, ◌≡◌, refl, sym, ap, ◌∙◌, ◌≢◌, true, false, Option, none, some,
  List, [], ◌∷◌, ◌++◌, map, arith, eq_iff, if◌then◌else◌, length, drop, length-append, last,
  length-last,
}
use new_zone_reference.Prelude.Dict.{Dict, get, put, get-put, IsDistinct}
use new_zone_reference.Prelude.Sort.{sort_by, IsSorted, sort_by-IsSorted, length-sort_by}
use new_zone_reference.Js.Object.{read, slot_of, is_inherited}
use new_zone_reference.Services.Replication.{
  max_events, Rule, collect_rules, merge_events, Event, Stamped, is_later, takes, ts_slot,
  merge_state,
}

-- Of two entries for a key, the remote one wins if there is no local one or if it is later.
abbrev pub newer : Option Stamped → Option Stamped → Option Stamped
newer none local = local
newer (some remote) none = some remote
newer (some remote) (some local) = if is_later remote.ts local.ts then some remote else some local

step-newer :
    (key : String) (remote : Stamped) (state : Dict Stamped)
    → is_inherited key ≡ false
    → (if takes remote.ts (ts_slot (λ e. e.ts) (read key state))
        then put key remote state
        else state)
      ≡ elim (get key state) [
        | none ↦ put key remote state
        | some before ↦ if is_later remote.ts before.ts then put key remote state else state
      ]
unfolding takes ts_slot read slot_of
step-newer key remote state plain = ground arith

-- Names that the prototype of objects does not have.
abbrev pub ArePlain {ℓ} : {V : Type ℓ} → Dict V → Type 0
ArePlain [] = Unit
ArePlain ((k, v) ∷ d) = (is_inherited k ≡ false) × ArePlain d

-- After a merge each key stands for the newer of the two entries: the remote one exactly if there
-- was no local one or the remote time stamp is later, for incoming keys that occur once and that
-- `Object.prototype` does not have.
pub merge_state-newer :
    (key : String) (incoming state : Dict Stamped)
    → IsDistinct incoming
    → ArePlain incoming
    → get key (merge_state incoming state) ≡ newer (get key incoming) (get key state)
unfolding merge_state get
merge_state-newer key [] state u p = refl
merge_state-newer key ((k, remote) ∷ incoming) state u p =
    merge_state-newer key incoming
      (if takes remote.ts (ts_slot (λ e. e.ts) (read k state)) then put k remote state else state)
      u.1 p.1
    ∙ rw (step-newer k remote state p.0) (ground (arith, eq_iff k key, get-put k key remote state))

newer-newer : (r l : Option Stamped) → newer r (newer r l) ≡ newer r l
unfolding is_later
newer-newer none l = refl
newer-newer (some r) none = ground arith
newer-newer (some r) (some l) = ground arith

-- Merging the same state a second time changes no entry.
pub merge_state_idem :
    (key : String) (incoming state : Dict Stamped)
    → IsDistinct incoming
    → ArePlain incoming
    → get key (merge_state incoming (merge_state incoming state))
      ≡ get key (merge_state incoming state)
merge_state_idem key incoming state u p =
    merge_state-newer key incoming (merge_state incoming state) u p
    ∙ ap (newer (get key incoming)) (merge_state-newer key incoming state u p)
    ∙ newer-newer (get key incoming) (get key state)
    ∙ sym (merge_state-newer key incoming state u p)

-- Two entries that a merge can tell apart: both have time stamps, and these differ.
abbrev pub AreOrdered : Option Stamped → Option Stamped → Type 0
AreOrdered (some a) (some b) = (m n : ℕ) × (a.ts ≡ some m) × (b.ts ≡ some n) × (m ≢ n)
AreOrdered a b = Unit

newer_comm : (a b : Option Stamped) → AreOrdered a b → newer a b ≡ newer b a
unfolding is_later
newer_comm none none h = refl
newer_comm none (some b) h = refl
newer_comm (some a) none h = refl
newer_comm (some a) (some b) (m, n, ha, hb, ne) = rw (ha, hb) (ground arith)

-- Two peers that merge each other's state agree on every key whose entries have different time
-- stamps, or that only one of them had, where each state has every key once and none that
-- `Object.prototype` has.
pub merge_state_converges :
    (key : String) (a b : Dict Stamped)
    → IsDistinct a
    → IsDistinct b
    → ArePlain a
    → ArePlain b
    → AreOrdered (get key a) (get key b)
    → get key (merge_state a b) ≡ get key (merge_state b a)
merge_state_converges key a b ua ub pa pb ordered =
    merge_state-newer key a b ua pa
    ∙ newer_comm (get key a) (get key b) ordered
    ∙ sym (merge_state-newer key b a ub pb)

newer_unstamped : (r : Option Stamped) (e : Stamped) → e.ts ≡ none → newer r (some e) ≡ some e
unfolding is_later
newer_unstamped none e h = refl
newer_unstamped (some r) e h = rw h (ground arith)

-- A local entry without a time stamp, as the snapshot from the state service makes them, is never
-- replaced by a merge of incoming keys that occur once and that `Object.prototype` does not have.
pub merge_state_unstamped :
    (key : String) (incoming state : Dict Stamped) (e : Stamped)
    → IsDistinct incoming
    → ArePlain incoming
    → get key state ≡ some e
    → e.ts ≡ none
    → get key (merge_state incoming state) ≡ some e
merge_state_unstamped key incoming state e u p there unstamped =
    merge_state-newer key incoming state u p
    ∙ ap (newer (get key incoming)) there
    ∙ newer_unstamped (get key incoming) e unstamped

IsSorted-drop :
    (n : ℕ) (events : List Event)
    → IsSorted (λ e. e.ts) events
    → IsSorted (λ e. e.ts) (drop n events)
IsSorted-drop zero events s = s
IsSorted-drop (suc n) [] s = tt
IsSorted-drop (suc n) (e ∷ events) s = IsSorted-drop n events s.1

-- The merged events are in the order of time, and they are as many as the local and the incoming
-- ones together, but at most 200.
pub merge_events-IsSorted :
    (incoming events : List Event)
    → IsSorted (λ e. e.ts) (merge_events incoming events)
      × (length (merge_events incoming events) ≡ min max_events (length events + length incoming))
unfolding merge_events
merge_events-IsSorted incoming events =
    let sorted = sort_by (λ (e : Event). e.ts) (events ++ incoming) in
    (
      unfold last in
          IsSorted-drop (length sorted - max_events) sorted
            (sort_by-IsSorted (λ (e : Event). e.ts) (events ++ incoming)),
      omega (
        arith,
        length-last max_events sorted,
        length-sort_by (λ (e : Event). e.ts) (events ++ incoming),
        length-append events incoming,
      ),
    )

get-collect_rules_inherited :
    (id : String) (rules : List Rule) (map : Dict Rule)
    → is_inherited id ≡ true
    → get id map ≡ none
    → get id (collect_rules rules map) ≡ none
unfolding collect_rules takes ts_slot read slot_of
get-collect_rules_inherited id [] map found absent = absent
get-collect_rules_inherited id (r ∷ rules) map found absent =
    get-collect_rules_inherited id rules
      (if takes r.ts (ts_slot (λ q. q.ts) (read r.id map)) then put r.id r map else map) found
      (ground (arith, eq_iff r.id id, get-put r.id id r map))

-- A rule whose identifier `Object.prototype` has is lost: no merge collects it.
pub collect_rules_drops_inherited :
    (id : String) (rules : List Rule)
    → is_inherited id ≡ true
    → get id (collect_rules rules []) ≡ none
collect_rules_drops_inherited id rules found =
    get-collect_rules_inherited id rules [] found (unfold get in refl)
