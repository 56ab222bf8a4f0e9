-- ===== src/TibQueue/Queue.antt =====
-- One queue of application/TIB/src/TIB_queue.c: a list with two semaphores, by the atomic parts of
-- its operations. The six queues have the same text but for their names. The list's own code
-- (include/queue.h of libuv) is taken as a list, and initialising a mutex or semaphore succeeds.
use vips_adaptive_traffi.Common.{
  ℕ, ◌+◌, ◌-◌, Option, none, some, List, [], ◌∷◌, ◌++◌, ◌==◌, if◌then◌else◌, ◌>>=◌,
}

-- `tib_obj`: the message is a pointer.
pub record TibObj : Type 0 where
  pub data_pointer : ℕ
  pub msg_len : ℕ
  pub tib_id : ℕ

abbrev pub max_tib_queue_size : ℕ
max_tib_queue_size = 50

-- `tib_queue`: the semaphore `full` counts the free places, `empty` the messages to take.
pub record TibQueue : Type 0 where
  pub items : List TibObj
  pub full : ℕ
  pub empty : ℕ

unfoldable pub queue_init : TibQueue
queue_init = record { items = []; full = max_tib_queue_size; empty = 0 }

-- `sizeof(data)`, as the code has it, is the size of a pointer, 8 bytes on the targets.
unfoldable pub tib_obj_create : ℕ → ℕ → TibObj
tib_obj_create data_pointer tib_id = record {
  data_pointer = data_pointer;
  msg_len = 8;
  tib_id = tib_id;
}

unfoldable pub queue_size : TibQueue → ℕ
queue_size q = q.empty

unfoldable pub queue_capacity : TibQueue → ℕ
unfolding queue_size
queue_capacity q = q.full + queue_size q

-- The parts of the enqueue: `sem_wait(&full)`, which blocks at 0 (`none`), the critical section,
-- and `sem_post(&empty)`.
unfoldable pub wait_full : TibQueue → Option TibQueue
wait_full q = if q.full == 0 then none else some (record q { full = q.full - 1 })

abbrev pub insert_tail : TibObj → TibQueue → TibQueue
insert_tail o q = record q { items = q.items ++ (o ∷ []) }

abbrev pub post_empty : TibQueue → TibQueue
post_empty q = record q { empty = q.empty + 1 }

unfoldable pub queue_enqueue : TibObj → TibQueue → Option TibQueue
queue_enqueue o q = wait_full q >>= λ q'. some (post_empty (insert_tail o q'))

-- The parts of the dequeue: `sem_trywait(&empty)`, the critical section, `sem_post(&full)`.
unfoldable pub trywait_empty : TibQueue → Option TibQueue
trywait_empty q = if q.empty == 0 then none else some (record q { empty = q.empty - 1 })

unfoldable pub remove_head : TibQueue → Option (TibObj × TibQueue)
remove_head q = elim q.items [ [] ↦ none | o ∷ rest ↦ some (o, record q { items = rest }) ]

abbrev pub post_full : TibQueue → TibQueue
post_full q = record q { full = q.full + 1 }

-- The end of the dequeue: with no head the code returns NULL and posts nothing.
unfoldable pub dequeue_taken : TibQueue → Option TibObj × TibQueue
dequeue_taken q = elim (remove_head q) [ none ↦ (none, q) | some r ↦ (some r.0, post_full r.1) ]

-- The result is NULL (`none`) for an empty queue.
unfoldable pub queue_dequeue : TibQueue → Option TibObj × TibQueue
queue_dequeue q = elim (trywait_empty q) [ none ↦ (none, q) | some q' ↦ dequeue_taken q' ]
