-- ===== src/Services/Discovery/Keys.antt =====
-- services/discovery and the tables of the servers: which key a node is known by.
use new_zone_reference.Crypto.Routing.{text_of}
use new_zone_reference.Prelude.{
  String, ◌≡◌, refl, sym, ◌∙◌, false, Option, none, some, [], ◌∷◌, arith, str_eq, eq_refl,
  if◌then◌else◌,
}
use new_zone_reference.Prelude.Dict.{get-put, get}
use new_zone_reference.Services.Http.{json}
use new_zone_reference.Js.{str, truthy, Value, prop, find_field}
use new_zone_reference.Services.Trust.{update_known_nodes, get_public_key_by_node_id}
use new_zone_reference.Services.Discovery.{
  on_message, announcement, show_nodes, Node, Nodes, node_fields,
}

-- The entry of a node in the reply.
abbrev node_key : Option Node → Value
node_key none = prop "public_key" (prop "" (str ""))
node_key (some n) = n.public_key

find_field-node_fields :
    (node_id : String) (nodes : Nodes)
    → prop "public_key" (find_field node_id (node_fields nodes)) ≡ node_key (get node_id nodes)
unfolding find_field node_fields get prop
find_field-node_fields node_id [] = refl
find_field-node_fields node_id ((j, n) ∷ nodes) =
    ground (arith, find_field-node_fields node_id nodes)

abbrev key_text : Value → Option String
key_text v = if truthy v then some (text_of v) else none

get_public_key-show_nodes :
    (node_id : String) (nodes : Nodes)
    → get_public_key_by_node_id (show_nodes nodes) node_id ≡ key_text (node_key (get node_id nodes))
unfolding get_public_key_by_node_id show_nodes prop
get_public_key-show_nodes node_id nodes = rw (find_field-node_fields node_id nodes) refl

-- Whoever sends the announcement of a node, with an identifier that is not empty and converts
-- to itself and with any key that is not empty, replaces the key of the node: a server that
-- then reads the table of the discovery service takes the announced key for the node's, and
-- the keys of the other nodes stay as they were.
pub get_public_key_by_node_id-on_message :
    (property_key : Value → String) (node_id other key ip : String) (port : Value) (nodes : Nodes)
    (known : Value)
    → property_key (str node_id) ≡ node_id
    → str_eq node_id "" ≡ false
    → str_eq key "" ≡ false
    → let nodes' = on_message property_key (some (announcement node_id key ip port)) nodes in
      let table = update_known_nodes (json (show_nodes nodes')) known in
      let before = update_known_nodes (json (show_nodes nodes)) known in
      (get_public_key_by_node_id table node_id ≡ some key)
      × (str_eq node_id other ≡ false
          → get_public_key_by_node_id table other ≡ get_public_key_by_node_id before other)
unfolding on_message announcement prop find_field truthy update_known_nodes
get_public_key_by_node_id-on_message property_key node_id other key ip port nodes known named
      present key_present =
    rw (present, key_present, named)
      (
        get_public_key-show_nodes node_id _
            ∙ rw (get-put node_id node_id _ nodes, eq_refl node_id, key_present) refl,
        λ distinct.
            get_public_key-show_nodes other _
            ∙ rw (get-put node_id other _ nodes, distinct)
                (sym (get_public_key-show_nodes other nodes)),
      )
