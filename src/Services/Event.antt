-- ===== src/Services/Event.antt =====
-- services/event/index.js: the event bus with subscriptions.
pub mod Delivery
pub mod Server
pub mod Publication
use new_zone_reference.Prelude.{
  ℕ, String, Bool, List, [], ◌∷◌, map, filter, push_bounded, str_eq, if◌then◌else◌, ◌++◌, Option,
  none, some,
}
use new_zone_reference.Prelude.Int.{ℤ}
use new_zone_reference.Js.{str, strict_equal, Value, null, default}
use new_zone_reference.Js.Array.{neg, slice_from}

pub record Event : Type 0 where
  pub ts : ℕ
  pub type : Value
  pub source : Value
  pub payload : Value

pub record Subscription : Type 0 where
  pub id : String
  pub type : Value
  pub callback : Value

pub record Bus : Type 0 where
  pub events : List Event
  pub subscriptions : List Subscription

-- A `fetch` that is started and not waited for.
pub record Notification : Type 0 where
  pub callback : Value
  pub event : Event

abbrev pub max_events : ℕ
max_events = 500

abbrev pub empty : Bus
empty = record { events = []; subscriptions = [] }

-- The loop over the subscriptions.
unfoldable pub notify : Event → List Subscription → List Notification
notify event [] = []
notify event (sub ∷ subs) =
    let rest = notify event subs in
    if strict_equal sub.type event.type
    then record { callback = sub.callback; event = event } ∷ rest
    else rest

-- `publishEvent`: the new state, the event that it returns and the requests that it starts.
unfoldable pub publish_event : ℕ → Value → Value → Value → Bus → Bus × Event × List Notification
publish_event now type source payload bus =
    let event : Event = record {
      ts = now;
      type = type;
      source = source;
      payload = default null payload;
    } in
    (
      record bus { events = push_bounded max_events event bus.events },
      event,
      notify event bus.subscriptions,
    )

-- `type ? EVENTS.filter(...) : EVENTS`, where no type and the empty one select everything.
unfoldable pub of_type : Option String → List Event → List Event
of_type none events = events
of_type (some type) events =
    if str_eq type "" then events else filter (λ e. strict_equal e.type (str type)) events

-- `getEvents`
unfoldable pub get_events : Option String → ℤ → Bus → List Event
unfolding of_type
get_events type limit bus = slice_from (neg limit) (of_type type bus.events)

-- `addSubscription`; `id` is the random identifier.
unfoldable pub add_subscription : String → Value → Value → Bus → Bus × String
add_subscription id type callback bus = (
  record bus {
    subscriptions = bus.subscriptions ++ record { id = id; type = type; callback = callback } ∷ [];
  },
  id,
)

-- `findIndex` and `splice`: the first subscription with the identifier goes.
unfoldable pub remove_first : String → List Subscription → List Subscription
remove_first id [] = []
remove_first id (s ∷ subs) = if str_eq s.id id then subs else s ∷ remove_first id subs

-- `removeSubscription`
unfoldable pub remove_subscription : String → Bus → Bus
remove_subscription id bus = record bus { subscriptions = remove_first id bus.subscriptions }

-- `listSubscriptions`
unfoldable pub list_subscriptions : Bus → List Subscription
list_subscriptions bus = bus.subscriptions

-- The operations that change the bus, and a run of them.
pub data Action : Type 0 where
  publish : ℕ → Value → Value → Value → Action
  subscribe : String → Value → Value → Action
  unsubscribe : String → Action

unfoldable pub step : Action → Bus → Bus
step (publish now type source payload) bus = (publish_event now type source payload bus).0
step (subscribe id type callback) bus = (add_subscription id type callback bus).0
step (unsubscribe id) bus = remove_subscription id bus

unfoldable pub run : List Action → Bus → Bus
run [] bus = bus
run (a ∷ as') bus = run as' (step a bus)
