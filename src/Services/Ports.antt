-- ===== src/Services/Ports.antt =====
-- config/ports.js: the ports of the services, and the requests that the services make to each other.
use new_zone_reference.Prelude.{ℕ, String}
use new_zone_reference.Js.{Value, str, obj, field, end, default, null}
use new_zone_reference.Services.Http.{Method, post}

pub data Service : Type 0 where
  identity metadata consensus storage gateway routing logging monitoring event directory scheduler
        state analytics queue rules p2p_node p2p_messaging replication discovery :
      Service

-- `PORTS`
unfoldable pub port : Service → ℕ
port identity = 3000
port metadata = 3001
port consensus = 3002
port storage = 3003
port gateway = 3004
port routing = 3005
port logging = 3006
port monitoring = 3007
port event = 3008
port directory = 3009
port scheduler = 3010
port state = 3011
port analytics = 3012
port queue = 3013
port rules = 3014
port p2p_node = 3015
port p2p_messaging = 3016
port replication = 3017
port discovery = 3018

-- A request to a service of the same machine, with the value that its body holds as JSON.
pub record Outgoing : Type 0 where
  pub service : Service
  pub method : Method
  pub path : String
  pub body : Value

-- `logEvent`, which starts a request and does not wait for it.
unfoldable pub log_event : String → String → Value → Outgoing
log_event source name content = record {
  service = logging;
  method = post;
  path = "/log";
  body = obj (
      field "source" (str source)
        (field "event" (str name) (field "payload" (default null content) end)));
}
