-- ===== src/Tests/Records.antt =====
-- The theorems about the replication and the analytics at concrete inputs.
use new_zone_reference.Prelude.{String, ◌≡◌, refl, none, some, List, [], ◌∷◌, ◌++◌, arith, length}
use new_zone_reference.Prelude.Dict.{Dict, get}
use new_zone_reference.Js.{str, Value}
use new_zone_reference.Js.Object.{is_inherited}
use new_zone_reference.Services.Replication
use new_zone_reference.Services.Replication.Merge
use new_zone_reference.Services.Analytics
use new_zone_reference.Services.Analytics.Counts

abbrev newer_entry : Replication.Stamped
newer_entry = record { ts = some 9; body = str "new" }

abbrev older_entry : Replication.Stamped
older_entry = record { ts = some 4; body = str "old" }

abbrev incoming : Dict Replication.Stamped
incoming = ("a", newer_entry) ∷ ("b", older_entry) ∷ []

abbrev local_state : Dict Replication.Stamped
local_state = ("a", older_entry) ∷ []

merge_state-newer_example :
    get "a" (Replication.merge_state incoming local_state)
    ≡ Merge.newer (get "a" incoming) (get "a" local_state)
unfolding get is_inherited
merge_state-newer_example =
    Merge.merge_state-newer "a" incoming local_state (refl, (refl, tt)) (refl, (refl, tt))

merge_state_converges_example :
    get "a" (Replication.merge_state incoming local_state)
    ≡ get "a" (Replication.merge_state local_state incoming)
unfolding get is_inherited
merge_state_converges_example =
    Merge.merge_state_converges "a" incoming local_state (refl, (refl, tt)) (refl, tt)
      (refl, (refl, tt)) (refl, tt) (9, 4, refl, refl, omega arith)

abbrev logged : List Analytics.Event
logged = record { source = some "rules"; type = none } ∷ []

recompute_metrics-counts_example :
    ((Analytics.recompute_metrics (some logged) none 5).total_events
      ≡ length (Analytics.fetch_events (some logged) ++ Analytics.fetch_events none))
    × (get "rules" (Analytics.recompute_metrics (some logged) none 5).events_by_source
        ≡ Counts.counter (
            Counts.with_source "rules"
              (Analytics.fetch_events (some logged) ++ Analytics.fetch_events none)))
unfolding is_inherited
recompute_metrics-counts_example = Counts.recompute_metrics-counts (some logged) none 5 "rules" refl

-- A hash that tells two texts apart.
abbrev hash_of : Value → String
hash_of (str s) = s
hash_of v = "other"
