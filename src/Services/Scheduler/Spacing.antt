-- ===== src/Services/Scheduler/Spacing.antt =====
-- services/scheduler/index.js: when the ticks run a task.
use new_zone_reference.Prelude.{
  ℕ, ◌+◌, ◌≤◌, ◌≡◌, refl, List, [], ◌∷◌, ◌++◌, map, filter, arith, Option, none, some, String,
  str_eq, eq_iff, if◌then◌else◌, Bool-cases, inl, inr, leb,
}
use new_zone_reference.Services.Scheduler.{Task, Callback, is_due, tick}

-- The first task with an identifier.
unfoldable pub find : String → List Task → Option Task
find id [] = none
find id (t ∷ tasks) = if str_eq t.id id then some t else find id tasks

abbrev pub AreDistinct : List Task → Type 0
AreDistinct [] = Unit
AreDistinct (t ∷ tasks) = (find t.id tasks ≡ none) × AreDistinct tasks

-- The times of the requests for a task.
abbrev pub times_of : String → List Callback → List ℕ
times_of id sent = map (λ c. c.ts) (filter (λ c. str_eq c.task_id id) sent)

-- Ticks at the given times, with all the requests that they start.
unfoldable pub run_ticks : List ℕ → List Task → List Callback
run_ticks [] tasks = []
run_ticks (now ∷ nows) tasks = let (tasks', sent) = tick now tasks in sent ++ run_ticks nows tasks'

-- Each time is at least `gap` after the one before it, and the first at least `gap` after `start`.
abbrev pub AreSpaced : ℕ → ℕ → List ℕ → Type 0
AreSpaced gap start [] = Unit
AreSpaced gap start (t ∷ ts) = (start + gap ≤ t) × AreSpaced gap t ts

unfoldable pub ran : ℕ → Task → Task
ran now t = if is_due now t then record t { last_run = now } else t

find-tick :
    (now : ℕ) (id : String) (tasks : List Task)
    → find id (tick now tasks).0 ≡ elim (find id tasks) [ none ↦ none | some t ↦ some (ran now t) ]
unfolding find tick ran
find-tick now id [] = refl
find-tick now id (t ∷ tasks) = ground (arith, find-tick now id tasks)

AreDistinct-tick :
    (now : ℕ) (tasks : List Task) → AreDistinct tasks → AreDistinct (tick now tasks).0
unfolding tick
AreDistinct-tick now [] d = tt
AreDistinct-tick now (t ∷ tasks) d =
    ground (arith, find-tick now t.id tasks, AreDistinct-tick now tasks d.1)

times_of-tick_absent :
    (now : ℕ) (id : String) (tasks : List Task)
    → find id tasks ≡ none
    → times_of id (tick now tasks).1 ≡ []
unfolding find tick
times_of-tick_absent now id [] h = refl
times_of-tick_absent now id (t ∷ tasks) h = ground (arith, times_of-tick_absent now id tasks)

times_of-tick :
    (now : ℕ) (id : String) (tasks : List Task) (t : Task)
    → AreDistinct tasks
    → find id tasks ≡ some t
    → times_of id (tick now tasks).1 ≡ (if is_due now t then now ∷ [] else [])
unfolding find tick
times_of-tick now id [] t d h = ground arith
times_of-tick now id (u ∷ tasks) t d h =
    ground
      (arith, times_of-tick now id tasks t d.1, times_of-tick_absent now id tasks, eq_iff u.id id)

times_of-append :
    (id : String) (xs ys : List Callback)
    → times_of id (xs ++ ys) ≡ times_of id xs ++ times_of id ys
times_of-append id [] ys = refl
times_of-append id (c ∷ xs) ys = ground (arith, times_of-append id xs ys)

AreSpaced-ran :
    (now : ℕ) (t : Task) (ts : List ℕ)
    → AreSpaced (ran now t).interval_ms (ran now t).last_run ts
    → AreSpaced t.interval_ms t.last_run ((if is_due now t then now ∷ [] else []) ++ ts)
unfolding ran is_due
AreSpaced-ran now t ts h = elim (Bool-cases (leb (t.last_run + t.interval_ms) now)) [
  | inl due ↦ rw due (ground arith, rw due at h)
  | inr early ↦ rw early (rw early at h)
]

-- Over any sequence of ticks the requests for a task are spaced by at least its interval, the first
-- one counted from its last run, if the identifiers of the tasks are distinct.
pub run_ticks-AreSpaced :
    (nows : List ℕ) (id : String) (tasks : List Task) (t : Task)
    → AreDistinct tasks
    → find id tasks ≡ some t
    → AreSpaced t.interval_ms t.last_run (times_of id (run_ticks nows tasks))
unfolding run_ticks
run_ticks-AreSpaced [] id tasks t d h = tt
run_ticks-AreSpaced (now ∷ nows) id tasks t d h =
    let tasks' : List Task = (tick now tasks).0 in
    let found : find id tasks' ≡ some (ran now t) = rw (find-tick now id tasks, h) refl in
    let rest =
      run_ticks-AreSpaced nows id tasks' (ran now t) (AreDistinct-tick now tasks d) found in
    rw
      (
        times_of-append id (tick now tasks).1 (run_ticks nows tasks'),
        times_of-tick now id tasks t d h,
      )
      (AreSpaced-ran now t (times_of id (run_ticks nows tasks')) rest)
