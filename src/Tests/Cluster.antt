-- ===== src/Tests/Cluster.antt =====
-- The theorems about services that work together at concrete inputs.
use new_zone_reference.Prelude.{
  ℕ, String, ◌≡◌, refl, ◌⊎◌, Bool, true, Option, none, some, List, [], ◌∷◌, arith,
}
use new_zone_reference.Prelude.Int.{ℤ, pos}
use new_zone_reference.Prelude.Dict.{get}
use new_zone_reference.Js.{
  or_empty, Value, num, str, obj, field, end, prop, find_field, truthy, strict_equal, null, arr,
  nil, cons,
}
use new_zone_reference.Crypto.Routing.{Verified, accepted, refused, unsupported_version, is_version}
use new_zone_reference.Services.Http
use new_zone_reference.Services.Http.{Request, Response, reply, error, reason_text}
use new_zone_reference.Services.Forward.{Answer, replied}
use new_zone_reference.Services.Directory.Server.{post_register}
use new_zone_reference.Services.Registration.{register_request, local_url}
use new_zone_reference.Services.Directory.{Service, is_match}
use new_zone_reference.Services.Registration.Lookup.{first_match}
use new_zone_reference.Services.Registration.Heartbeats
use new_zone_reference.Services.Registration.Heartbeats.{
  Step, run, IsFresh, run-register, run_unlisted,
}
use new_zone_reference.Services.Peers.Requests as PeerRequests
use new_zone_reference.Services.Peers.Bounds.{IsValid}
use new_zone_reference.Services.Replication.{Dump}
use new_zone_reference.Services.Replication as Replication
use new_zone_reference.Services.Replication.Server as ReplicationServer
use new_zone_reference.Services.Replication.Push.{handle-push_to_peer}
use new_zone_reference.Services.Gateway.{Proxied, proxy_request}
use new_zone_reference.Services.Gateway.Server as Gateway
use new_zone_reference.Services.Gateway.Server.Forwarding.{Passes, request_to, handle-Passes}
use new_zone_reference.Services.Ports
use new_zone_reference.Services.Ports.{storage, routing}
use new_zone_reference.Services.Queue.Server as Queue
use new_zone_reference.Services.Event.Server.{history_request, stored}
use new_zone_reference.Services.Rules.{evaluate_rules, initial}
use new_zone_reference.Services.Rules.Server.{process_history_queue}
use new_zone_reference.Services.Rules.Pipeline.{
  to_request, dequeue_history, process_history_queue-history_request,
}
use new_zone_reference.Tests.Facade.{tools, signer, cipher, der_of}

-- Names of properties for texts, one name for all else.
abbrev name_of : Value → String
name_of (str s) = s
name_of v = "[object Object]"

abbrev number_of : Value → Option ℤ
number_of (num n) = some n
number_of v = none

abbrev refuse_all : Value → Verified
refuse_all v = refused unsupported_version

-- The queue service, as of a heartbeat at 50.
abbrev queue_service : Service
queue_service = record {
  id = "d1";
  role = str "queue";
  url = str (local_url 3013);
  ts = 50;
  ttl = num (pos 100);
}

abbrev steps : List Step
steps =
    Heartbeats.cleanup 140
    ∷ Heartbeats.other 145 (obj (field "role" (str "rules") end))
    ∷ Heartbeats.beat 148 150
    ∷ Heartbeats.cleanup 240
    ∷ []

abbrev timely : List Step
timely =
    Heartbeats.cleanup 5000
    ∷ Heartbeats.other 5100 (obj (field "role" (str "rules") end))
    ∷ Heartbeats.beat 5990 6000
    ∷ Heartbeats.cleanup 16000
    ∷ []

run-register_example :
    let body = (register_request "state" 3011 30).body in
    let registered = (post_register name_of refuse_all 40 "d2" body (queue_service ∷ [])).0 in
    (later : ℕ) × IsFresh name_of refuse_all number_of "state" 3011 10000 later
      (run name_of refuse_all number_of "state" 3011 10000 timely registered)
unfolding is_match strict_equal local_url prop or_empty
run-register_example =
    run-register name_of refuse_all number_of "state" 3011 30 40 "d2" timely (queue_service ∷ [])
      refl (omega arith) refl (omega arith, (refl, (omega arith, tt)))

run_unlisted_example :
    first_match
      (str "state")
      (str (local_url 3011))
      (run name_of refuse_all number_of "state" 3011 100 steps (queue_service ∷ []))
    ≡ none
unfolding is_match strict_equal
run_unlisted_example =
    run_unlisted name_of refuse_all number_of "state" 3011 100 steps (queue_service ∷ []) refl

abbrev merge_request : Request
merge_request = record {
  method = Http.post;
  url = "/p2p/merge";
  body =
      Http.json
        (obj (field "peers" (arr (cons (obj (field "id" (str "p1") end)) (cons null nil))) end));
}

handle_all-IsValid_example :
    IsValid (PeerRequests.handle_all name_of refuse_all "self" ((λ i. i, merge_request) ∷ []) [])
handle_all-IsValid_example =
    PeerRequests.handle_all-IsValid name_of refuse_all "self" ((λ i. i, merge_request) ∷ [])

abbrev no_merge : Value → Dump → Dump × Bool
no_merge v data' = (Replication.empty, true)

abbrev as_json : Dump → Value
as_json data' = obj (field "events" (arr nil) end)

abbrev held : Dump
held = record Replication.empty { events = record { ts = 5; body = null } ∷ [] }

handle-push_to_peer_example :
    (ReplicationServer.handle no_merge as_json refuse_all
      (ReplicationServer.push_to_peer no_merge as_json refuse_all Replication.empty)
      held).0
    ≡ held
unfolding is_version prop find_field
handle-push_to_peer_example =
    handle-push_to_peer no_merge as_json refuse_all Replication.empty held refl

-- A routing packet, and a check that accepts it.
abbrev routing_packet : Value
routing_packet =
    obj (field "version" (str "nz-routing-crypto-01") (field "payload" (str "content") end))

abbrev accept_all : Value → Verified
accept_all v = accepted "n1" (prop "payload" v)

abbrev direct : Request
direct = record { method = Http.post; url = "/storage/cas/store"; body = Http.json routing_packet }

abbrev network : Proxied → Answer
network p = replied 200 (some null)

abbrev store_content : Proxied
store_content = record {
  service = storage;
  path = "/cas/store";
  method = Http.post;
  body = some (str "content");
}

abbrev no_more : List Proxied
no_more = []

handle-Passes_example :
    (no_more ≡ [])
    × (((v : Value) × (Http.is_post direct "/route" ≡ true)
          × (Http.json routing_packet ≡ Http.json v)
          × (store_content ≡ request_to routing "/route" Http.post v))
        ⊎ ((prefix : String) × (service : Ports.Service) × (v : Value) × (Gateway.find_route
                direct.url Gateway.routes
              ≡ some (prefix, service))
            × Passes accept_all (Http.json routing_packet) v
            × (store_content ≡ request_to service (Http.rest_of prefix direct.url) Http.post v)))
unfolding Http.is_get Http.is_post is_version prop find_field truthy Gateway.handle
    Http.parse_request_body proxy_request Http.rest_of
handle-Passes_example =
    handle-Passes tools signer cipher der_of accept_all true network 7 direct store_content no_more
      refl

abbrev no_param : String → String → Option String
no_param url name = none

abbrev no_number : String → Option ℤ
no_number text = none

abbrev queues : Queue.Server
queues = record { tasks = []; queues = ("history", []) ∷ [] }

process_history_queue-history_request_example :
    let put_there =
      (Queue.handle name_of refuse_all no_param no_number 5
        (to_request (history_request (str "x") (str "payload")))
        queues).0 in
    let (s', taken) =
      Queue.handle name_of refuse_all no_param no_number 6 dequeue_history put_there in
    (process_history_queue (some taken) initial
      ≡ evaluate_rules (stored (str "x") (str "payload")) initial)
    × (get "history" s'.queues ≡ some [])
unfolding get
process_history_queue-history_request_example =
    process_history_queue-history_request name_of refuse_all no_param no_number 5 6 (str "x")
      (str "payload") queues initial refl refl
