-- ===== src/Services/State/Server.antt =====
-- services/state/server.js: the HTTP interface of the key-value store.
use new_zone_reference.Prelude.{ℕ, String, if◌then◌else◌}
use new_zone_reference.Js.{Value, undefined, str, arr, obj, end, field, prop, or_empty}
use new_zone_reference.Js.Object.{Slot, own, inherited, missing}
use new_zone_reference.Crypto.Routing.{Verified}
use new_zone_reference.Services.Http.{
  Request, Response, reply, parse_request_body, with_payload, after, ok_status, not_found, strings,
  is_get, is_get_below, is_post, is_delete_below,
}
use new_zone_reference.Services.State.{Store, Entry, set_state, get_state, delete_state, list_keys}

-- The reply to GET /get/<key>; a function of `Object.prototype` has no `value`.
unfoldable pub show_entry : String → Slot Entry → Response
show_entry key (own e) = reply 200 (obj (field "key" (str key) (field "value" e.value end)))
show_entry key inherited = reply 200 (obj (field "key" (str key) (field "value" undefined end)))
show_entry key missing = not_found

-- `property_key` is the conversion of a value to the name of a property, and `verify` the check of
-- routing packets.
module _ (property_key : Value → String) (verify : Value → Verified) where
  -- POST /set, with the payload.
  unfoldable pub post_set : ℕ → Value → Store → Store × Response
  post_set now v store =
      let key = prop "key" (or_empty v) in
      let (store', entry) = set_state (property_key key) (prop "value" (or_empty v)) now store in
      (store', reply 200 (obj (field "key" key (field "value" entry.value end))))

  -- The handler of the server, with the time of the request.
  unfoldable pub handle : ℕ → Request → Store → Store × Response
  unfolding post_set show_entry
  handle now r store =
      if is_get r "/health"
      then (store, reply 200 ok_status)
      else if is_post r "/set"
      then with_payload (parse_request_body verify r.body) store (λ v crypto. post_set now v store)
      else if is_get_below r "/get/"
      then (store, show_entry (after "/get/" r.url) (get_state (after "/get/" r.url) store))
      else if is_delete_below r "/delete/"
      then (
        delete_state (after "/delete/" r.url) store,
        reply 200 (obj (field "removed" (str (after "/delete/" r.url)) end)),
      )
      else if is_get r "/keys"
      then (store, reply 200 (arr (strings (list_keys store))))
      else (store, not_found)
