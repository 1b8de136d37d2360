-- ===== src/Services/Queue/Fifo.antt =====
-- services/queue/index.js: the queues against a function from names to sequences of items.
use new_zone_reference.Prelude.{
  true, List-cases, push_all, push_all-last, last, zero, suc, take, ℕ, ◌≡◌, refl, false, List, [],
  ◌∷◌, ap, ◌∙◌, arith, Option, none, some, String, str_eq, eq_iff, eq_refl, if◌then◌else◌,
  Option-cases, inl, inr, drop, push_bounded,
}
use new_zone_reference.Prelude.Dict.{get, put, get-put}
use new_zone_reference.Js.{Value}
use new_zone_reference.Js.Object.{inherited, slot_of, own, read, is_inherited}
use new_zone_reference.Services.Queue.{
  Outcome, thrown, ℤ, peek_slot, peek, enqueue_slot, Item, Queues, returned, max_queue_size,
  ensure_queue, enqueue, dequeue, ensure_slot, dequeue_slot,
}

-- What a name stands for: the items of its queue, none if there is no such queue.
unfoldable pub items_of : String → Queues → List Item
items_of name queues = elim (get name queues) [ none ↦ [] | some items ↦ items ]

read-ensure_queue :
    (name : String) (queues : Queues)
    → is_inherited name ≡ false
    → read name (ensure_queue name queues) ≡ own (items_of name queues)
unfolding ensure_queue items_of read ensure_slot
read-ensure_queue name queues plain = elim (Option-cases (get name queues)) [
  | inl absent ↦ rw (plain, absent) (ground (arith, get-put name name [] queues, eq_refl name))
  | inr (items, there) ↦ ground arith
]

items_of-ensure_queue :
    (name other : String) (queues : Queues)
    → items_of other (ensure_queue name queues) ≡ items_of other queues
unfolding ensure_queue items_of read ensure_slot
items_of-ensure_queue name other queues =
    ground (arith, get-put name other [] queues, eq_iff name other)

items_of-put :
    (name other : String) (items : List Item) (queues : Queues)
    → items_of other (put name items queues)
      ≡ (if str_eq name other then items else items_of other queues)
unfolding items_of
items_of-put name other items queues = ground (arith, get-put name other items queues)

-- On a name that `Object.prototype` does not have, `enqueue` appends the item to its queue, drops
-- the oldest item if there are then more than 500, leaves every other queue, and returns the item.
pub enqueue-items_of :
    (now : ℕ) (name : String) (payload : Value) (queues : Queues)
    → is_inherited name ≡ false
    → let item : Item = record { ts = now; payload = payload } in
      ((enqueue now name payload queues).1 ≡ returned item)
      × ((other : String)
          → items_of other (enqueue now name payload queues).0 ≡ (
              if str_eq name other
              then push_bounded max_queue_size item (items_of name queues)
              else items_of other queues))
unfolding enqueue
enqueue-items_of now name payload queues plain = rw (read-ensure_queue name queues plain) (
  refl,
  λ other.
      items_of-put name other
        (push_bounded max_queue_size (record { ts = now; payload = payload })
          (items_of name queues))
        (ensure_queue name queues)
      ∙ ap
          (λ l.
            if str_eq name other
            then push_bounded max_queue_size (record { ts = now; payload = payload })
                (items_of name queues)
            else l)
          (items_of-ensure_queue name other queues),
)

abbrev pub first? : List Item → Option Item
first? [] = none
first? (item ∷ items) = some item

dequeue_slot-items_of :
    (name : String) (queues : Queues)
    → let done = dequeue_slot (own (items_of name queues)) name (ensure_queue name queues) in
      (done.1 ≡ returned (first? (items_of name queues)))
      × ((other : String)
          → items_of other done.0
            ≡ (if str_eq name other then drop 1 (items_of name queues) else items_of other queues))
unfolding dequeue_slot
dequeue_slot-items_of name queues = elim (List-cases (items_of name queues)) [
  | inl e ↦
      rw e
        (refl, λ other. ground (arith, items_of-ensure_queue name other queues, eq_iff name other))
  | inr (item, items, e) ↦ rw e (
    refl,
    λ other. ground (
      arith,
      items_of-put name other items (ensure_queue name queues),
      items_of-ensure_queue name other queues,
    ),
  )
]

-- On a name that `Object.prototype` does not have, `dequeue` returns the oldest item of its queue,
-- or none if the queue is empty or not there, removes it, and leaves every other queue.
pub dequeue-items_of :
    (name : String) (queues : Queues)
    → is_inherited name ≡ false
    → ((dequeue name queues).1 ≡ returned (first? (items_of name queues)))
      × ((other : String)
          → items_of other (dequeue name queues).0
            ≡ (if str_eq name other then drop 1 (items_of name queues) else items_of other queues))
unfolding dequeue
dequeue-items_of name queues plain =
    rw (read-ensure_queue name queues plain) (dequeue_slot-items_of name queues)

unfoldable pub collect : Outcome (Option Item) → List Item → List Item
collect (returned (some item)) rest = item ∷ rest
collect outcome rest = []

-- The items that up to `n` calls of `dequeue` return, until one returns none or throws.
unfoldable pub drain : ℕ → String → Queues → List Item
unfolding collect
drain zero name queues = []
drain (suc n) name queues = collect (dequeue name queues).1 (drain n name (dequeue name queues).0)

unfoldable pub enqueue_all : String → List Item → Queues → Queues
enqueue_all name [] queues = queues
enqueue_all name (item ∷ items) queues =
    enqueue_all name items (enqueue item.ts name item.payload queues).0

collect-first? :
    (n : ℕ) (items : List Item)
    → collect (returned (first? items)) (take n (drop 1 items)) ≡ take (suc n) items
unfolding collect
collect-first? n [] = refl
collect-first? n (item ∷ items) = refl

drain-take :
    (n : ℕ) (name : String) (queues : Queues)
    → is_inherited name ≡ false
    → drain n name queues ≡ take n (items_of name queues)
unfolding drain
drain-take zero name queues plain = refl
drain-take (suc n) name queues plain =
    let (result, left) = dequeue-items_of name queues plain in
    rw result (
      ap (collect (returned (first? (items_of name queues)))) (
        drain-take n name (dequeue name queues).0 plain
        ∙ ap (take n) (left name ∙ ground (arith, eq_refl name)))
      ∙ collect-first? n (items_of name queues))

enqueue_all-push_all :
    (name : String) (items : List Item) (queues : Queues)
    → is_inherited name ≡ false
    → items_of name (enqueue_all name items queues)
      ≡ push_all max_queue_size items (items_of name queues)
unfolding enqueue_all push_all
enqueue_all-push_all name [] queues plain = refl
enqueue_all-push_all name (item ∷ items) queues plain =
    let (result, left) = enqueue-items_of item.ts name item.payload queues plain in
    enqueue_all-push_all name items (enqueue item.ts name item.payload queues).0 plain
    ∙ ap (push_all max_queue_size items) (left name ∙ ground (arith, eq_refl name))

-- First in, first out: under a name that `Object.prototype` does not have, items that are enqueued
-- on an empty store come out of `n` calls of `dequeue` in the order in which they went in, where
-- only the last 500 of them are still there.
pub drain-enqueue_all :
    (n : ℕ) (name : String) (items : List Item)
    → is_inherited name ≡ false
    → drain n name (enqueue_all name items []) ≡ take n (last max_queue_size items)
drain-enqueue_all n name items plain =
    drain-take n name (enqueue_all name items []) plain
    ∙ ap (take n) (
        enqueue_all-push_all name items [] plain
        ∙ (unfold items_of get last in push_all-last max_queue_size items []))

ensure_queue-inherited :
    (name : String) (queues : Queues)
    → is_inherited name ≡ true
    → get name queues ≡ none
    → (ensure_queue name queues ≡ queues) × (read name queues ≡ inherited)
unfolding ensure_queue ensure_slot read slot_of
ensure_queue-inherited name queues found absent = ground arith

-- On a name that `Object.prototype` has, every operation throws and changes nothing, if the store
-- has no such queue of its own.
pub inherited_name_throws :
    (name : String) (queues : Queues) (now : ℕ) (payload : Value) (limit : ℤ)
    → is_inherited name ≡ true
    → get name queues ≡ none
    → (enqueue now name payload queues ≡ (queues, thrown))
      × (dequeue name queues ≡ (queues, thrown))
      × (peek name limit queues ≡ (queues, thrown))
unfolding enqueue enqueue_slot dequeue dequeue_slot peek peek_slot
inherited_name_throws name queues now payload limit found absent =
    let (same, slot) = ensure_queue-inherited name queues found absent in
    (rw (same, slot) refl, rw (same, slot) refl, rw (same, slot) refl)
