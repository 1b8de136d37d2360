-- ===== src/Services/Trust.antt =====
-- The table of known nodes, of which each server keeps a copy of what the discovery service answers.
use new_zone_reference.Prelude.{ℕ, String, Option, none, some, if◌then◌else◌}
use new_zone_reference.Js.{Value, prop, truthy}
use new_zone_reference.Crypto.Routing.{Platform, Verified, verify_routing_packet, text_of}
use new_zone_reference.Services.Http.{Body, json}

-- `getPublicKeyByNodeId`, of a table that is an object: the key in base64. What an object inherits
-- has no `public_key`, and neither has a value that is no object.
unfoldable pub get_public_key_by_node_id : Value → String → Option String
get_public_key_by_node_id known_nodes node_id =
    let public_key = prop "public_key" (prop node_id known_nodes) in
    if truthy public_key then some (text_of public_key) else none

-- `updateKnownNodes`, with what the discovery service answers: a text that is no JSON is ignored.
unfoldable pub update_known_nodes : Body → Value → Value
update_known_nodes (json v) known_nodes = v
update_known_nodes body known_nodes = known_nodes

-- The check of a routing packet by a server, with the skew that all of them allow.
unfoldable pub check_packet : Platform → ℕ → Value → Value → Verified
unfolding get_public_key_by_node_id
check_packet platform now known_nodes packet =
    verify_routing_packet platform now (get_public_key_by_node_id known_nodes) 300 packet
