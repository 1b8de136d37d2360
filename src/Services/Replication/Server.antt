-- ===== src/Services/Replication/Server.antt =====
-- services/replication/server.js, and the push of services/replication/index.js.
use new_zone_reference.Prelude.{Bool, true, false, if◌then◌else◌}
use new_zone_reference.Js.{Value, bool, obj, end, field, prop, or_empty}
use new_zone_reference.Crypto.Routing.{Verified}
use new_zone_reference.Services.Http.{
  Request, Response, reply, post, json, parse_request_body, with_payload, ok_status, not_found,
  error, is_get, is_post,
}
use new_zone_reference.Services.Replication.{Dump, dump_data}

-- `merge` is `mergeData` of a payload as it was parsed, with the data that it leaves and whether it ends
-- without an error; `dump_json` is the data as a value; `verify` checks routing packets.
module _ (merge : Value → Dump → Dump × Bool) (dump_json : Dump → Value)
    (verify : Value → Verified) where
  -- POST /replicate, with the payload: only a routing packet is merged.
  unfoldable pub post_replicate : Value → Bool → Dump → Dump × Response
  post_replicate v true data' =
      let (merged, ended) = merge v data' in
      (
        merged,
        if ended
            then reply 200 (obj (field "ok" (bool true) end))
            else reply 400 (error "Invalid replication"),
      )
  post_replicate v false data' = (
    data',
    reply 200 (
        obj
          (field "key" (prop "key" (or_empty v)) (field "value" (prop "value" (or_empty v)) end))),
  )

  -- The handler of the server.
  unfoldable pub handle : Request → Dump → Dump × Response
  unfolding post_replicate
  handle r data' =
      if is_get r "/health"
      then (data', reply 200 ok_status)
      else if is_post r "/replicate"
      then with_payload (parse_request_body verify r.body) data'
          (λ v crypto. post_replicate v crypto data')
      else if is_get r "/dump"
      then (data', reply 200 (dump_json (dump_data data')))
      else (data', not_found)

  -- `pushToPeer`: the request that the peer gets.
  unfoldable pub push_to_peer : Dump → Request
  push_to_peer data' = record { method = post; url = "/replicate"; body = json (dump_json data') }
