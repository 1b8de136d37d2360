-- ===== src/Services/Scheduler.antt =====
-- services/scheduler/index.js: the periodic task scheduler.
pub mod Spacing
pub mod Server
use new_zone_reference.Prelude.{
  ℕ, ◌+◌, String, Bool, List, [], ◌∷◌, push_bounded, str_eq, leb, if◌then◌else◌,
}
use new_zone_reference.Js.{Value, null, default}

-- An interval is a natural number of milliseconds.
pub record Task : Type 0 where
  pub id : String
  pub interval_ms : ℕ
  pub callback_url : String
  pub payload : Value
  pub last_run : ℕ

-- A request that a tick starts and does not wait for.
pub record Callback : Type 0 where
  pub url : String
  pub ts : ℕ
  pub task_id : String
  pub payload : Value

abbrev pub max_tasks : ℕ
max_tasks = 200

-- `addTask`; `id` is the random identifier.
unfoldable pub add_task : String → ℕ → String → Value → List Task → List Task × Task
add_task id interval_ms callback_url payload tasks =
    let task : Task = record {
      id = id;
      interval_ms = interval_ms;
      callback_url = callback_url;
      payload = default null payload;
      last_run = 0;
    } in
    (push_bounded max_tasks task tasks, task)

-- `listTasks`
unfoldable pub list_tasks : List Task → List Task
list_tasks tasks = tasks

-- `removeTask`: `findIndex` and `splice`.
unfoldable pub remove_task : String → List Task → List Task
remove_task id [] = []
remove_task id (t ∷ tasks) = if str_eq t.id id then tasks else t ∷ remove_task id tasks

-- `now - task.last_run >= task.interval_ms`, where the difference may be negative.
unfoldable pub is_due : ℕ → Task → Bool
is_due now task = leb (task.last_run + task.interval_ms) now

-- The loop of a tick of `startScheduler`: the tasks afterwards and the requests that it starts.
unfoldable pub tick : ℕ → List Task → List Task × List Callback
unfolding is_due
tick now [] = ([], [])
tick now (task ∷ tasks) =
    let (tasks', sent) = tick now tasks in
    if is_due now task
    then (
      record task { last_run = now } ∷ tasks',
      record { url = task.callback_url; ts = now; task_id = task.id; payload = task.payload }
          ∷ sent,
    )
    else (task ∷ tasks', sent)
