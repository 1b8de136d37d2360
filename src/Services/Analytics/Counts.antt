-- ===== src/Services/Analytics/Counts.antt =====
-- services/analytics/index.js: the counters against the list of events.
use native.Mathlib.Nat.{add-zero}
use new_zone_reference.Prelude.{
  ℕ, zero, suc, ◌+◌, String, ◌≡◌, refl, ap, ◌∙◌, ◌⊎◌, inl, inr, true, false, Option, none, some,
  List, [], ◌∷◌, ◌++◌, arith, str_eq, eq_iff, eq_refl, if◌then◌else◌, Bool-cases, length, filter,
}
use new_zone_reference.Prelude.Dict.{Dict, get, get-put}
use new_zone_reference.Js.Object.{read, slot_of, is_inherited}
use new_zone_reference.Services.Analytics.{
  Event, Count, number, text, Metrics, empty, or_unknown, next, increment, count_all, fetch_events,
  recompute_metrics,
}

-- How many of the events have the source, an absent one counted as "unknown".
abbrev pub with_source : String → List Event → ℕ
with_source name all = length (filter (λ ev. str_eq (or_unknown ev.source) name) all)

-- A counter that has counted to `n`: there is none at zero.
abbrev pub counter : ℕ → Option Count
counter zero = none
counter (suc n) = some (number (suc n))

get-increment :
    (name other : String) (counts : Dict Count) (n : ℕ)
    → is_inherited other ≡ false
    → get other counts ≡ counter n
    → get other (increment name counts) ≡ (if str_eq name other then counter (suc n) else counter n)
unfolding increment next read slot_of
get-increment name other counts zero plain h =
    ground (arith, eq_iff name other, get-put name other (next (read name counts)) counts)
get-increment name other counts (suc n) plain h =
    ground (arith, eq_iff name other, get-put name other (next (read name counts)) counts)

count_all-source :
    (name : String) (all : List Event) (m : Metrics) (n : ℕ)
    → is_inherited name ≡ false
    → get name m.events_by_source ≡ counter n
    → get name (count_all all m).events_by_source ≡ counter (n + with_source name all)
unfolding count_all
count_all-source name [] m n plain h = rw add-zero h
count_all-source name (ev ∷ all) m n plain h =
    let m' : Metrics = record m {
      events_by_source = increment (or_unknown ev.source) m.events_by_source;
      events_by_type = increment (or_unknown ev.type) m.events_by_type;
      total_events = m.total_events + 1;
    } in
    let here = get-increment (or_unknown ev.source) name m.events_by_source n plain h in
    elim (Bool-cases (str_eq (or_unknown ev.source) name)) [
      | inl same ↦
          rw same (
            count_all-source name all m' (suc n) plain (rw same at here) ∙ ap counter (omega arith))
      | inr other ↦ rw other (count_all-source name all m' n plain (rw other at here))
    ]

total-count_all :
    (all : List Event) (m : Metrics) → (count_all all m).total_events ≡ m.total_events + length all
unfolding count_all
total-count_all [] m = omega arith
total-count_all (ev ∷ all) m = ground (
  arith,
  total-count_all all (record m {
    events_by_source = increment (or_unknown ev.source) m.events_by_source;
    events_by_type = increment (or_unknown ev.type) m.events_by_type;
    total_events = m.total_events + 1;
  }),
)

-- After `recomputeMetrics` the total is the number of events that the two services returned, and the
-- counter of a source that `Object.prototype` does not have is the number of events with it; no
-- counter is there for a source without events.
pub recompute_metrics-counts :
    (logging bus : Option (List Event)) (now : ℕ) (name : String)
    → is_inherited name ≡ false
    → let all = fetch_events logging ++ fetch_events bus in
      ((recompute_metrics logging bus now).total_events ≡ length all)
      × (get name (recompute_metrics logging bus now).events_by_source
          ≡ counter (with_source name all))
unfolding recompute_metrics
recompute_metrics-counts logging bus now name plain =
    let all = fetch_events logging ++ fetch_events bus in
    (
      omega (arith, total-count_all all empty),
      count_all-source name all empty 0 plain (unfold get in refl) ∙ ap counter (omega arith),
    )

get-increment_inherited :
    (name : String) (counts : Dict Count)
    → is_inherited name ≡ true
    → get name counts ≡ none ⊎ get name counts ≡ some text
    → get name (increment name counts) ≡ some text
unfolding increment next read slot_of
get-increment_inherited name counts found before =
    ground (arith, eq_refl name, get-put name name (next (read name counts)) counts)

-- The first and the second event for a source that `Object.prototype` has leave a text in the
-- place of its counter.
pub increment_inherited :
    (name : String) (counts : Dict Count)
    → is_inherited name ≡ true
    → get name counts ≡ none
    → (get name (increment name counts) ≡ some text)
      × (get name (increment name (increment name counts)) ≡ some text)
increment_inherited name counts found absent =
    let first = get-increment_inherited name counts found (inl absent) in
    (first, get-increment_inherited name (increment name counts) found (inr first))
