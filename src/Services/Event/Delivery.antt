-- ===== src/Services/Event/Delivery.antt =====
-- services/event/index.js: what the bus keeps and whom it notifies.
use new_zone_reference.Prelude.{
  ℕ, suc, ◌≡◌, ◌≢◌, refl, List, [], ◌∷◌, ◌++◌, map, filter, ap, ◌∙◌, arith, push_all, push_all-last,
  last, eq_iff, str_eq, String, some,
}
use new_zone_reference.Prelude.Int.{pos}
use new_zone_reference.Js.{str, strict_equal, Value, null, default}
use new_zone_reference.Js.Array.{neg, slice_from}
use new_zone_reference.Services.Event.{
  Bus, Event, Subscription, empty, max_events, notify, publish_event, get_events, add_subscription,
  remove_subscription, remove_first, Action, publish, subscribe, unsubscribe, step, run,
}

-- The subscriptions of a type.
abbrev pub subscribers : Value → List Subscription → List Subscription
subscribers type subs = filter (λ s. strict_equal s.type type) subs

notify-subscribers :
    (event : Event) (subs : List Subscription)
    → notify event subs
      ≡ map (λ s. record { callback = s.callback; event = event }) (subscribers event.type subs)
unfolding notify
notify-subscribers event [] = refl
notify-subscribers event (s ∷ subs) = ground (arith, notify-subscribers event subs)

-- Publishing starts one request for each subscription of the event's type, in the order of the
-- subscriptions and with the event itself, and none for the others; it leaves the subscriptions.
pub publish_event-notifies :
    (now : ℕ) (type source payload : Value) (bus : Bus)
    → let (bus', event, sent) = publish_event now type source payload bus in
      (sent
        ≡ map
            (λ s. record { callback = s.callback; event = event })
            (subscribers type bus.subscriptions))
      × (bus'.subscriptions ≡ bus.subscriptions)
unfolding publish_event
publish_event-notifies now type source payload bus =
    (notify-subscribers (publish_event now type source payload bus).1 bus.subscriptions, refl)

-- The events that a run publishes, in order.
unfoldable pub published : List Action → List Event
published [] = []
published (publish now type source payload ∷ rest) =
    record { ts = now; type = type; source = source; payload = default null payload }
    ∷ published rest
published (subscribe id type callback ∷ rest) = published rest
published (unsubscribe id ∷ rest) = published rest

run-push_all :
    (actions : List Action) (bus : Bus)
    → (run actions bus).events ≡ push_all max_events (published actions) bus.events
unfolding run step published push_all publish_event add_subscription remove_subscription
run-push_all [] bus = refl
run-push_all (publish now type source payload ∷ rest) bus =
    run-push_all rest (step (publish now type source payload) bus)
run-push_all (subscribe id type callback ∷ rest) bus =
    run-push_all rest (step (subscribe id type callback) bus)
run-push_all (unsubscribe id ∷ rest) bus = run-push_all rest (step (unsubscribe id) bus)

run-last :
    (actions : List Action) → (run actions empty).events ≡ last max_events (published actions)
unfolding last
run-last actions = run-push_all actions empty ∙ push_all-last max_events (published actions) []

-- After any run on an empty bus, `getEvents` with a type that is not empty and a positive limit
-- returns the newest events of the type, at most as many as the limit, among the last 500 that were
-- published, oldest first.
pub get_events-run :
    (actions : List Action) (type : String) (n : ℕ)
    → type ≢ ""
    → get_events (some type) (pos (suc n)) (run actions empty)
      ≡ last
          (suc n)
          (filter (λ e. strict_equal e.type (str type)) (last max_events (published actions)))
unfolding get_events neg slice_from
get_events-run actions type n named = rw (run-last actions) (ground (arith, eq_iff type ""))

remove_first-append :
    (s : Subscription) (subs : List Subscription)
    → filter (λ t. str_eq t.id s.id) subs ≡ []
    → remove_first s.id (subs ++ s ∷ []) ≡ subs
unfolding remove_first
remove_first-append s [] fresh = ground (arith, eq_iff s.id s.id)
remove_first-append s (t ∷ subs) fresh = ground (arith, remove_first-append s subs)

-- Removing the identifier that `addSubscription` has just returned restores the bus, if no other
-- subscription has that identifier.
pub remove_subscription-add_subscription :
    (id : String) (type callback : Value) (bus : Bus)
    → filter (λ t. str_eq t.id id) bus.subscriptions ≡ []
    → let (bus', id') = add_subscription id type callback bus in remove_subscription id' bus' ≡ bus
unfolding add_subscription remove_subscription
remove_subscription-add_subscription id type callback bus fresh =
    ap (λ (l : List Subscription). record bus { subscriptions = l })
      (remove_first-append (record { id = id; type = type; callback = callback }) bus.subscriptions
        fresh)
