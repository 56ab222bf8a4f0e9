-- ===== src/TibQueue/Fifo.antt =====
-- What a queue of application/TIB/src/TIB_queue.c promises to one thread at a time.
use vips_adaptive_traffi.Common.{
  ◌+◌, ◌≡◌, Option, none, some, List, [], ◌∷◌, ◌++◌, length, arith, length-append, if◌then◌else◌,
  ◌==◌,
}
use vips_adaptive_traffi.TibQueue.Queue.{
  TibObj, TibQueue, queue_init, max_tib_queue_size, wait_full, trywait_empty, remove_head,
  dequeue_taken, queue_enqueue, queue_dequeue, queue_capacity, queue_size,
}

-- Between two operations every place is free or taken, and each message is announced.
pub record IsIdle (q : TibQueue) : Type 0 where
  pub places : q.full + length q.items ≡ max_tib_queue_size
  pub announced : q.empty ≡ length q.items

pub queue_init-IsIdle : IsIdle queue_init
unfolding queue_init
queue_init-IsIdle = omega arith

-- The queue as the list of its messages.
abbrev pub enqueue_list : TibObj → List TibObj → Option (List TibObj)
enqueue_list o xs = if length xs == max_tib_queue_size then none else some (xs ++ (o ∷ []))

abbrev pub dequeue_list : List TibObj → Option TibObj × List TibObj
dequeue_list [] = (none, [])
dequeue_list (x ∷ xs) = (some x, xs)

abbrev pub items_of : Option TibQueue → Option (List TibObj)
items_of none = none
items_of (some q) = some q.items

-- The queue that an enqueue leaves; a blocked one leaves the queue.
abbrev pub after : TibQueue → Option TibQueue → TibQueue
after q none = q
after q (some q') = q'

-- On an idle queue the enqueue is that of a list of at most 50 messages: it blocks exactly when
-- there are 50, and otherwise appends; the queue is idle again.
pub queue_enqueue-refines :
    (o : TibObj) (q : TibQueue)
    → IsIdle q
    → (items_of (queue_enqueue o q) ≡ enqueue_list o q.items) × IsIdle (after q (queue_enqueue o q))
unfolding queue_enqueue wait_full
queue_enqueue-refines o q idle = ground (arith, length-append q.items (o ∷ []))

-- On an idle queue the dequeue is that of a list: NULL exactly when there is no message, and
-- otherwise the oldest one, which is removed; the queue is idle again.
pub queue_dequeue-refines :
    (q : TibQueue)
    → IsIdle q
    → ((queue_dequeue q).0 ≡ (dequeue_list q.items).0)
      × ((queue_dequeue q).1.items ≡ (dequeue_list q.items).1)
      × IsIdle (queue_dequeue q).1
unfolding queue_dequeue trywait_empty dequeue_taken remove_head
queue_dequeue-refines q idle = ground arith

-- The capacity that the status line shows is 50 for an idle queue.
pub queue_capacity-idle : (q : TibQueue) → IsIdle q → queue_capacity q ≡ max_tib_queue_size
unfolding queue_capacity queue_size
queue_capacity-idle q idle = omega (arith, idle)
