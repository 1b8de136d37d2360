-- ===== src/Services/Replication/Push.antt =====
-- services/replication: what a push does to the peer.
use new_zone_reference.Prelude.{◌≡◌, refl, inl, inr, Bool, false, Bool-cases}
use new_zone_reference.Js.{Value, prop, truthy}
use new_zone_reference.Crypto.Routing.{Verified, is_version}
use new_zone_reference.Services.Http.{parse_request_body, with_payload, is_get, is_post}
use new_zone_reference.Services.Replication.{Dump}
use new_zone_reference.Services.Replication.Server.{handle, push_to_peer, post_replicate}

-- What `pushToPeer` sends, data whose JSON has no version of a routing packet, is not merged
-- by the server of the peer: its data stay as they are, whatever is pushed and whatever a
-- merge would do.
pub handle-push_to_peer :
    (merge : Value → Dump → Dump × Bool) (dump_json : Dump → Value) (verify : Value → Verified)
    (pushed data' : Dump)
    → is_version (prop "version" (dump_json pushed)) ≡ false
    → (handle merge dump_json verify (push_to_peer merge dump_json verify pushed) data').0 ≡ data'
unfolding handle push_to_peer parse_request_body with_payload is_get is_post post_replicate
handle-push_to_peer merge dump_json verify pushed data' plain =
    elim (Bool-cases (truthy (dump_json pushed))) [
      | inl there ↦ rw (there, plain) refl
      | inr falsy ↦ rw falsy refl
    ]
