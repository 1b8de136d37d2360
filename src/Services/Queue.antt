-- ===== src/Services/Queue.antt =====
-- services/queue/index.js: named first-in-first-out queues, each with at most 500 items.
pub mod Fifo
pub mod Server
use new_zone_reference.Prelude.{
  ℕ, String, Bool, Option, none, some, List, [], ◌∷◌, map, push_bounded, length, if◌then◌else◌,
}
use new_zone_reference.Prelude.Int.{ℤ}
use new_zone_reference.Prelude.Dict.{Dict, get, put}
use new_zone_reference.Js.{Value}
use new_zone_reference.Js.Array.{slice_to}
use new_zone_reference.Js.Object.{Slot, own, inherited, missing, read}

pub record Item : Type 0 where
  pub ts : ℕ
  pub payload : Value

abbrev pub Queues : Type 0
Queues = Dict (List Item)

abbrev pub max_queue_size : ℕ
max_queue_size = 500

-- The result of an operation: `thrown` is the `TypeError` of calling an array's method on what the
-- name inherits from `Object.prototype`.
pub data Outcome {ℓ} (A : Type ℓ) : Type ℓ where
  returned : A → Outcome A
  thrown : Outcome A

-- `ensureQueue`
unfoldable pub ensure_slot : Slot (List Item) → String → Queues → Queues
ensure_slot missing name queues = put name [] queues
ensure_slot s name queues = queues

unfoldable pub ensure_queue : String → Queues → Queues
unfolding ensure_slot read
ensure_queue name queues = ensure_slot (read name queues) name queues

unfoldable pub enqueue_slot : Slot (List Item) → String → Item → Queues → Queues × Outcome Item
enqueue_slot (own items) name item queues =
    (put name (push_bounded max_queue_size item items) queues, returned item)
enqueue_slot s name item queues = (queues, thrown)

-- `enqueue`
unfoldable pub enqueue : ℕ → String → Value → Queues → Queues × Outcome Item
unfolding ensure_queue enqueue_slot
enqueue now name payload queues =
    let ready = ensure_queue name queues in
    let item : Item = record { ts = now; payload = payload } in
    enqueue_slot (read name ready) name item ready

unfoldable pub dequeue_slot : Slot (List Item) → String → Queues → Queues × Outcome (Option Item)
dequeue_slot (own []) name queues = (queues, returned none)
dequeue_slot (own (item ∷ items)) name queues = (put name items queues, returned (some item))
dequeue_slot s name queues = (queues, thrown)

-- `dequeue`
unfoldable pub dequeue : String → Queues → Queues × Outcome (Option Item)
unfolding ensure_queue dequeue_slot
dequeue name queues =
    let ready = ensure_queue name queues in dequeue_slot (read name ready) name ready

unfoldable pub peek_slot : Slot (List Item) → ℤ → Outcome (List Item)
peek_slot (own items) limit = returned (slice_to limit items)
peek_slot s limit = thrown

-- `peek`, which also creates a queue that is not there.
unfoldable pub peek : String → ℤ → Queues → Queues × Outcome (List Item)
unfolding ensure_queue peek_slot
peek name limit queues =
    let ready = ensure_queue name queues in (ready, peek_slot (read name ready) limit)

pub record Size : Type 0 where
  pub name : String
  pub size : ℕ

-- `listQueues`
unfoldable pub list_queues : Queues → List Size
list_queues queues = map (λ e. record { name = e.0; size = length e.1 }) queues
