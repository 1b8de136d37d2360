-- ===== src/Services/Scheduler/Server.antt =====
-- services/scheduler/server.js: the list of jobs, which the scheduler's loop does not read.
use new_zone_reference.Prelude.{◌&&◌, List, [], ◌∷◌, ◌++◌, if◌then◌else◌}
use new_zone_reference.Js.{Value, Items, arr, obj, nil, cons, end, field, truthy, prop, or_empty}
use new_zone_reference.Crypto.Routing.{Verified}
use new_zone_reference.Services.Http.{
  Request, Response, reply, parse_request_body, with_payload, error, ok_status, not_found, is_get,
  is_post,
}

pub record Job : Type 0 where
  pub type : Value
  pub cron : Value
  pub payload : Value

unfoldable pub job_value : Job → Value
job_value job =
    obj (field "type" job.type (field "cron" job.cron (field "payload" job.payload end)))

unfoldable pub job_values : List Job → Items
job_values [] = nil
job_values (j ∷ jobs) = cons (job_value j) (job_values jobs)

-- POST /schedule, with the payload.
unfoldable pub post_schedule : Value → List Job → List Job × Response
unfolding job_value
post_schedule v jobs =
    let job : Job = record {
      type = prop "type" (or_empty v);
      cron = prop "cron" (or_empty v);
      payload = prop "payload" (or_empty v);
    } in
    if truthy job.type && truthy job.cron
    then (jobs ++ job ∷ [], reply 200 (job_value job))
    else (jobs, reply 400 (error "Invalid job"))

-- The handler of the server; `verify` checks routing packets.
unfoldable pub handle : (Value → Verified) → Request → List Job → List Job × Response
unfolding post_schedule job_values
handle verify r jobs =
    if is_get r "/health"
    then (jobs, reply 200 ok_status)
    else if is_post r "/schedule"
    then with_payload (parse_request_body verify r.body) jobs (λ v crypto. post_schedule v jobs)
    else if is_get r "/jobs"
    then (jobs, reply 200 (arr (job_values jobs)))
    else (jobs, not_found)
