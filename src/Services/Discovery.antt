-- ===== src/Services/Discovery.antt =====
-- services/discovery: the nodes that announce themselves over UDP, and the HTTP interface.
pub mod Keys
use new_zone_reference.Prelude.{String, ◌&&◌, Option, none, some, [], ◌∷◌, if◌then◌else◌}
use new_zone_reference.Prelude.Dict.{Dict, put}
use new_zone_reference.Js.{Value, Fields, str, obj, end, field, truthy, prop}
use new_zone_reference.Services.Http.{Request, Response, reply, ok_status, not_found, is_get}

pub record Node : Type 0 where
  pub public_key : Value
  pub service : Value
  pub ip : Value
  pub port : Value

abbrev pub Nodes : Type 0
Nodes = Dict Node

-- A datagram: a text that is no JSON is ignored, and so is `null`, whose properties are an error.
unfoldable pub on_message : (Value → String) → Option Value → Nodes → Nodes
on_message property_key none nodes = nodes
on_message property_key (some v) nodes =
    if truthy (prop "node_id" v) && truthy (prop "public_key" v) && truthy (prop "service" v)
    then put (property_key (prop "node_id" v))
        (record {
          public_key = prop "public_key" v;
          service = prop "service" v;
          ip = prop "ip" v;
          port = prop "port" v;
        })
        nodes
    else nodes

-- What the service broadcasts about its own node.
unfoldable pub announcement : String → String → String → Value → Value
announcement node_id ed25519_public ip port = obj (
    field "node_id" (str node_id) (
      field "public_key" (str ed25519_public)
        (field "service" (str "discovery") (field "ip" (str ip) (field "port" port end)))))

unfoldable pub node_fields : Nodes → Fields
node_fields [] = end
node_fields ((node_id, n) ∷ nodes) =
    field node_id
      (obj (
        field "public_key" n.public_key
          (field "service" n.service (field "ip" n.ip (field "port" n.port end)))))
      (node_fields nodes)

-- GET /nodes
unfoldable pub show_nodes : Nodes → Value
unfolding node_fields
show_nodes nodes = obj (node_fields nodes)

-- The handler of the server.
unfoldable pub handle : Request → Nodes → Response
unfolding show_nodes
handle r nodes =
    if is_get r "/health"
    then reply 200 ok_status
    else if is_get r "/nodes"
    then reply 200 (show_nodes nodes)
    else not_found
