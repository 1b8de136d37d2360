-- ===== src/Services/Rules/Server.antt =====
-- services/rules/server.js: the HTTP interface of the rules, and the loop over the history queue.
use new_zone_reference.Prelude.{
  String, Bool, false, not, ◌&&◌, Option, none, some, List, [], ◌∷◌, str_eq, ◌==◌, if◌then◌else◌,
}
use new_zone_reference.Prelude.Dict.{Dict, put}
use new_zone_reference.Js.{Fields, Value, undefined, str, obj, end, field, truthy, prop, or_empty}
use new_zone_reference.Js.Object.{Slot, own, inherited, missing, read}
use new_zone_reference.Crypto.Routing.{Verified}
use new_zone_reference.Services.Http.{
  Request, Response, reply, unanswered, parse_request_body, with_payload, rest_of, error, ok_status,
  not_found, is_get, is_get_below, is_post,
}
use new_zone_reference.Services.Rules
use new_zone_reference.Services.Rules.{Config, set_history_rule, get_history_rule, evaluate_rules}

-- `RULES` and the configuration of the history rule.
pub record Server : Type 0 where
  pub rules : Dict Value
  pub config : Config

-- `key === "history_rule"`
unfoldable pub is_history_rule : Value → Bool
is_history_rule (str s) = str_eq s "history_rule"
is_history_rule v = false

-- The reply to GET /get/<key>: `key in RULES` also finds what `Object.prototype` has, a function that
-- the JSON leaves out.
unfoldable pub show_rule : String → Slot Value → Response
show_rule key (own v) = reply 200 (obj (field "key" (str key) (field "value" v end)))
show_rule key inherited = reply 200 (obj (field "key" (str key) (field "value" undefined end)))
show_rule key missing = not_found

unfoldable pub config_fields : Config → Fields
config_fields [] = end
config_fields ((k, v) ∷ config) = field k v (config_fields config)

-- A pass of `processHistoryQueue`: the requests of the rules for what POST /dequeue has replied.
-- `none` is a request that fails.
unfoldable pub process_history_queue : Option Response → Config → List Rules.Request
process_history_queue none config = []
process_history_queue (some unanswered) config = []
process_history_queue (some (reply status body)) config =
    if status == 200 && (truthy body && not (truthy (prop "empty" body)))
    then evaluate_rules (or_empty (prop "payload" body)) config
    else []

-- `property_key` converts a value to the name of a property, and `verify` checks routing packets.
module _ (property_key : Value → String) (verify : Value → Verified) where
  -- POST /set, with the payload; a key that is not there is an error, which is caught.
  unfoldable pub post_set : Value → Server → Server × Response
  unfolding is_history_rule
  post_set v s =
      let key = prop "key" (or_empty v) in
      let value = prop "value" (or_empty v) in
      if truthy key
      then (
        record {
          rules = put (property_key key) value s.rules;
          config = if is_history_rule key then set_history_rule value s.config else s.config;
        },
        reply 200 (obj (field "key" key (field "value" value end))),
      )
      else (s, reply 400 (error "Invalid rule"))

  -- The handler of the server.
  unfoldable pub handle : Request → Server → Server × Response
  unfolding post_set show_rule config_fields
  handle r s =
      if is_get r "/health"
      then (s, reply 200 ok_status)
      else if is_post r "/set"
      then with_payload (parse_request_body verify r.body) s (λ v crypto. post_set v s)
      else if is_get_below r "/get/"
      then (s, show_rule (rest_of "/get/" r.url) (read (rest_of "/get/" r.url) s.rules))
      else if is_get r "/config"
      then (s, reply 200 (obj (config_fields (get_history_rule s.config))))
      else (s, not_found)
