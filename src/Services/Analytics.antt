-- ===== src/Services/Analytics.antt =====
-- services/analytics/index.js: event counts by source and by type.
pub mod Counts
pub mod Server
use new_zone_reference.Prelude.{
  ℕ, zero, suc, ◌+◌, ◌-◌, ◌*◌, ◌/◌, ◌%◌, ◌^◌, ◌≤◌, ◌<◌, String, ◌≡◌, refl, sym, ap, ◌∙◌, ◌≢◌, ◌↔◌,
  ◌⊎◌, inl, inr, Bool, true, false, not, ◌&&◌, ◌||◌, Option, none, some, List, [], ◌∷◌, ◌++◌, map,
  append_assoc, append-nil, arith, str_eq, eq_iff, eq_refl, ltb, leb, ◌==◌, if◌then◌else◌, ltb→lt,
  lt→ltb, leb→le, ==_iff, Bool-cases, Option-cases, List-cases, length, take, drop, replicate,
  filter, length-append, length-take, length-drop, length-replicate, length-filter, length-map,
  take-append-drop, take-append, drop-append, take_of_le, drop-append_of_le, drop-drop, drop-nil,
  last, length-last, last_of_le, last-last, push_bounded, length-push_bounded, push_bounded-last,
  push_all, push_all-last,
}
use new_zone_reference.Prelude.Dict.{Dict, get, put}
use new_zone_reference.Js.Object.{Slot, own, inherited, missing, read}

-- An event as `/events` of the logging service and of the event service returns it. A source or a
-- type that is not there is `none`.
pub record Event : Type 0 where
  pub source : Option String
  pub type : Option String

-- A counter: a number, or the text that `+ 1` makes of an inherited function.
pub data Count : Type 0 where
  number : ℕ → Count
  text : Count

pub record Metrics : Type 0 where
  pub events_by_source : Dict Count
  pub events_by_type : Dict Count
  pub total_events : ℕ
  pub last_updated : Option ℕ

abbrev pub empty : Metrics
empty = record { events_by_source = []; events_by_type = []; total_events = 0; last_updated = none }

-- `x || "unknown"`
unfoldable pub or_unknown : Option String → String
or_unknown none = "unknown"
or_unknown (some s) = if str_eq s "" then "unknown" else s

-- `(counts[name] || 0) + 1`
unfoldable pub next : Slot Count → Count
next missing = number 1
next inherited = text
next (own (number n)) = number (n + 1)
next (own text) = text

-- `counts[name] = (counts[name] || 0) + 1`, for a name other than `__proto__`.
unfoldable pub increment : String → Dict Count → Dict Count
unfolding next read
increment name counts = put name (next (read name counts)) counts

-- The loop of `recomputeMetrics`.
unfoldable pub count_all : List Event → Metrics → Metrics
unfolding or_unknown increment
count_all [] m = m
count_all (ev ∷ all) m = count_all all (record m {
  events_by_source = increment (or_unknown ev.source) m.events_by_source;
  events_by_type = increment (or_unknown ev.type) m.events_by_type;
  total_events = m.total_events + 1;
})

-- `fetchLoggingEvents` and `fetchBusEvents`: a request that fails gives no events.
unfoldable pub fetch_events : Option (List Event) → List Event
fetch_events none = []
fetch_events (some events) = events

-- `recomputeMetrics`, given what the two services answer and the time; the counts start afresh.
unfoldable pub recompute_metrics : Option (List Event) → Option (List Event) → ℕ → Metrics
unfolding count_all fetch_events
recompute_metrics logging bus now =
    record (count_all (fetch_events logging ++ fetch_events bus) empty) { last_updated = some now }
