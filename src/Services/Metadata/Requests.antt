-- ===== src/Services/Metadata/Requests.antt =====
-- services/metadata/server.js: what is read back.
use new_zone_reference.Prelude.{String, ◌≡◌, refl, false, str_eq, eq_refl}
use new_zone_reference.Prelude.Dict.{get-put}
use new_zone_reference.Js.{Value, str, obj, end, field, truthy, prop, find_field, or_empty, or_else}
use new_zone_reference.Js.Object.{read, slot_of}
use new_zone_reference.Crypto.Routing.{Verified}
use new_zone_reference.Services.Http.{reply}
use new_zone_reference.Services.Metadata.Server.{Server, post_set, show_value}

module _ (property_key : Value → String) (verify : Value → Verified)
    (sha256_json : Value → String) where
  -- After POST /set with a key and a value, the reply to the same key is that value, and what is read
  -- under any other name is what was read before.
  pub show_value-post_set :
      (k name : String) (v : Value) (s : Server)
      → ((t : String) → property_key (str t) ≡ t)
      → str_eq k "" ≡ false
      → let s' =
          (post_set property_key verify sha256_json
            (obj (field "key" (str k) (field "value" v end)))
            s).0 in
        (show_value k (read k s'.store)
          ≡ reply 200 (obj (field "key" (str k) (field "value" v end))))
        × (str_eq k name ≡ false → read name s'.store ≡ read name s.store)
  unfolding post_set show_value read slot_of prop find_field or_empty or_else truthy
  show_value-post_set k name v s text_key present =
      rw (text_key k, present)
        (
          rw (get-put k k v s.store, eq_refl k) refl,
          λ other. rw (get-put k name v s.store, other) refl,
        )
