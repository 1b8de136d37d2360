-- ===== src/Services/Directory/Server.antt =====
-- services/directory/server.js: the HTTP interface of the registry.
use new_zone_reference.Prelude.{ℕ, String, List, [], ◌∷◌, if◌then◌else◌}
use new_zone_reference.Prelude.Int.{pos}
use new_zone_reference.Prelude.Dict.{Dict}
use new_zone_reference.Js.{
  Value, Items, Fields, bool, num, str, arr, obj, nil, cons, end, field, prop, or_empty,
}
use new_zone_reference.Crypto.Routing.{Verified}
use new_zone_reference.Services.Http.{
  Request, Response, reply, parse_request_body, with_payload, after, ok_status, not_found, is_get,
  is_get_below, is_post, is_delete_below,
}
use new_zone_reference.Services.Directory.{
  Service, Listing, register_service, update_heartbeat, list_services, find_by_role, remove_service,
}

unfoldable pub service_value : Service → Value
service_value s = obj (
    field "id" (str s.id) (
      field "role" s.role
        (field "url" s.url (field "ts" (num (pos s.ts)) (field "ttl" s.ttl end)))))

unfoldable pub service_values : List Service → Items
unfolding service_value
service_values [] = nil
service_values (s ∷ services) = cons (service_value s) (service_values services)

unfoldable pub listing_fields : Dict Listing → Fields
listing_fields [] = end
listing_fields ((role, s) ∷ listings) =
    field role
      (obj (
        field "id" (str s.id)
          (field "url" s.url (field "ts" (num (pos s.ts)) (field "ttl" s.ttl end)))))
      (listing_fields listings)

-- `property_key` converts a value to the name of a property, and `verify` checks routing packets.
module _ (property_key : Value → String) (verify : Value → Verified) where
  -- POST /register, with the payload, the time and the random identifier.
  unfoldable pub post_register : ℕ → String → Value → List Service → List Service × Response
  unfolding service_value
  post_register now id v services =
      let (services', entry) =
        register_service id now (prop "role" (or_empty v)) (prop "url" (or_empty v)) services in
      (services', reply 200 (service_value entry))

  -- POST /heartbeat, with the payload.
  unfoldable pub post_heartbeat : ℕ → Value → List Service → List Service × Response
  post_heartbeat now v services =
      let (services', updated) =
        update_heartbeat now (prop "role" (or_empty v)) (prop "url" (or_empty v))
          (prop "ttl" (or_empty v)) services in
      (services', reply 200 (obj (field "ok" (bool updated) end)))

  -- The handler of the server, with the time and a random identifier.
  unfoldable pub handle : ℕ → String → Request → List Service → List Service × Response
  unfolding post_register post_heartbeat service_values listing_fields
  handle now id r services =
      if is_get r "/health"
      then (services, reply 200 ok_status)
      else if is_post r "/register"
      then with_payload (parse_request_body verify r.body) services
          (λ v crypto. post_register now id v services)
      else if is_post r "/heartbeat"
      then with_payload (parse_request_body verify r.body) services
          (λ v crypto. post_heartbeat now v services)
      else if is_get r "/services"
      then (services, reply 200 (obj (listing_fields (list_services property_key services))))
      else if is_get_below r "/services/"
      then (
        services,
        reply 200 (arr (service_values (find_by_role (after "/services/" r.url) services))),
      )
      else if is_delete_below r "/services/"
      then (
        remove_service (after "/services/" r.url) services,
        reply 200 (obj (field "removed" (str (after "/services/" r.url)) end)),
      )
      else (services, not_found)
