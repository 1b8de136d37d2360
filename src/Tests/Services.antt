-- ===== src/Tests/Services.antt =====
-- The theorems about the queues, the event bus, the scheduler and the directory at concrete inputs.
use new_zone_reference.Prelude.{
  Option, eq_iff, true, false, ◌≡◌, refl, none, some, List, [], ◌∷◌, take, filter, last,
}
use new_zone_reference.Prelude.Int.{ℤ, pos}
use new_zone_reference.Js.{Value, num, str, strict_equal, null, undefined}
use new_zone_reference.Js.Object.{is_inherited}
use new_zone_reference.Services.Queue
use new_zone_reference.Services.Queue.Fifo
use new_zone_reference.Services.Event
use new_zone_reference.Services.Event.Delivery
use new_zone_reference.Services.Scheduler
use new_zone_reference.Services.Scheduler.Spacing
use new_zone_reference.Services.Directory
use new_zone_reference.Services.Directory.Expiry

abbrev first_item : Queue.Item
first_item = record { ts = 1; payload = str "first" }

abbrev second_item : Queue.Item
second_item = record { ts = 2; payload = str "second" }

abbrev items : List Queue.Item
items = first_item ∷ second_item ∷ []

abbrev queues : Queue.Queues
queues = ("jobs", items) ∷ []

drain-enqueue_all_example :
    Fifo.drain 2 "jobs" (Fifo.enqueue_all "jobs" items [])
    ≡ take 2 (last Queue.max_queue_size items)
unfolding is_inherited
drain-enqueue_all_example = Fifo.drain-enqueue_all 2 "jobs" items refl

abbrev bus : Event.Bus
bus = record {
  events = [];
  subscriptions = record { id = "s1"; type = str "created"; callback = str "http://a/hook" } ∷ [];
}

abbrev actions : List Event.Action
actions =
    Event.publish 1 (str "created") (str "state") null
    ∷ Event.subscribe "s1" (str "created") (str "http://a/hook")
    ∷ Event.publish 2 (str "removed") (str "state") undefined
    ∷ []

get_events-run_example :
    Event.get_events (some "created") (pos 1) (Event.run actions Event.empty)
    ≡ last 1 (
        filter
          (λ e. strict_equal e.type (str "created"))
          (last Event.max_events (Delivery.published actions)))
get_events-run_example =
    Delivery.get_events-run actions "created" 0
      (λ same. let no : false ≡ true = (eq_iff "created" "").1 same in absurd (cc))

abbrev task : Scheduler.Task
task = record {
  id = "t1";
  interval_ms = 10;
  callback_url = "http://a/tick";
  payload = null;
  last_run = 0;
}

run_ticks-AreSpaced_example :
    Spacing.AreSpaced 10 0
      (Spacing.times_of "t1" (Spacing.run_ticks (5 ∷ 12 ∷ 15 ∷ 30 ∷ []) (task ∷ [])))
unfolding Spacing.find
run_ticks-AreSpaced_example =
    Spacing.run_ticks-AreSpaced (5 ∷ 12 ∷ 15 ∷ 30 ∷ []) "t1" (task ∷ []) task (refl, tt) refl

abbrev number_of : Value → Option ℤ
number_of (num n) = some n
number_of v = none

abbrev services : List Directory.Service
services =
    record { id = "d1"; role = str "queue"; url = str "http://q"; ts = 0; ttl = num (pos 10) }
    ∷ record { id = "d2"; role = str "state"; url = str "http://s"; ts = 50; ttl = num (pos 10) }
    ∷ []

cleanup_expired-live_example :
    Directory.cleanup_expired number_of 55 services ≡ Expiry.live number_of 55 services
cleanup_expired-live_example = Expiry.cleanup_expired-live number_of 55 services
