-- ===== src/TibQueue/Kinds.antt =====
-- The six queues of application/TIB/src/TIB_queue.c, and their operations by name.
use vips_adaptive_traffi.Common.{ℕ, Option, some, ◌>>=◌}
use vips_adaptive_traffi.TibQueue.Queue.{
  TibObj, TibQueue, queue_init, queue_size, queue_capacity, queue_enqueue, queue_dequeue,
}

-- Which of the globals is meant.
pub data Kind : Type 0 where
  of_map of_spat of_tim of_eva of_rsa of_psm : Kind

pub record Queues : Type 0 where
  pub map_queue : TibQueue
  pub spat_queue : TibQueue
  pub tim_queue : TibQueue
  pub eva_queue : TibQueue
  pub rsa_queue : TibQueue
  pub psm_queue : TibQueue

abbrev pub queue_of : Kind → Queues → TibQueue
queue_of of_map s = s.map_queue
queue_of of_spat s = s.spat_queue
queue_of of_tim s = s.tim_queue
queue_of of_eva s = s.eva_queue
queue_of of_rsa s = s.rsa_queue
queue_of of_psm s = s.psm_queue

abbrev pub with_queue : Kind → TibQueue → Queues → Queues
with_queue of_map q s = record s { map_queue = q }
with_queue of_spat q s = record s { spat_queue = q }
with_queue of_tim q s = record s { tim_queue = q }
with_queue of_eva q s = record s { eva_queue = q }
with_queue of_rsa q s = record s { rsa_queue = q }
with_queue of_psm q s = record s { psm_queue = q }

-- The operations on one of the globals.
unfoldable pub enqueue_to : Kind → TibObj → Queues → Option Queues
enqueue_to k o s = queue_enqueue o (queue_of k s) >>= λ q. some (with_queue k q s)

unfoldable pub dequeue_from : Kind → Queues → Option TibObj × Queues
dequeue_from k s = let r = queue_dequeue (queue_of k s) in (r.0, with_queue k r.1 s)

unfoldable pub map_queue_size : Queues → ℕ
map_queue_size s = queue_size s.map_queue

unfoldable pub map_queue_capacity : Queues → ℕ
map_queue_capacity s = queue_capacity s.map_queue

unfoldable pub map_queue_dequeue : Queues → Option TibObj × Queues
map_queue_dequeue s = dequeue_from of_map s

unfoldable pub map_queue_enqueue : TibObj → Queues → Option Queues
map_queue_enqueue o s = enqueue_to of_map o s

unfoldable pub map_queue_init : Queues → Queues
map_queue_init s = record s { map_queue = queue_init }

unfoldable pub spat_queue_size : Queues → ℕ
spat_queue_size s = queue_size s.spat_queue

unfoldable pub spat_queue_capacity : Queues → ℕ
spat_queue_capacity s = queue_capacity s.spat_queue

unfoldable pub spat_queue_dequeue : Queues → Option TibObj × Queues
spat_queue_dequeue s = dequeue_from of_spat s

unfoldable pub spat_queue_enqueue : TibObj → Queues → Option Queues
spat_queue_enqueue o s = enqueue_to of_spat o s

unfoldable pub spat_queue_init : Queues → Queues
spat_queue_init s = record s { spat_queue = queue_init }

unfoldable pub tim_queue_size : Queues → ℕ
tim_queue_size s = queue_size s.tim_queue

unfoldable pub tim_queue_capacity : Queues → ℕ
tim_queue_capacity s = queue_capacity s.tim_queue

unfoldable pub tim_queue_dequeue : Queues → Option TibObj × Queues
tim_queue_dequeue s = dequeue_from of_tim s

unfoldable pub tim_queue_enqueue : TibObj → Queues → Option Queues
tim_queue_enqueue o s = enqueue_to of_tim o s

unfoldable pub tim_queue_init : Queues → Queues
tim_queue_init s = record s { tim_queue = queue_init }

unfoldable pub eva_queue_size : Queues → ℕ
eva_queue_size s = queue_size s.eva_queue

unfoldable pub eva_queue_capacity : Queues → ℕ
eva_queue_capacity s = queue_capacity s.eva_queue

unfoldable pub eva_queue_dequeue : Queues → Option TibObj × Queues
eva_queue_dequeue s = dequeue_from of_eva s

unfoldable pub eva_queue_enqueue : TibObj → Queues → Option Queues
eva_queue_enqueue o s = enqueue_to of_eva o s

unfoldable pub eva_queue_init : Queues → Queues
eva_queue_init s = record s { eva_queue = queue_init }

unfoldable pub rsa_queue_size : Queues → ℕ
rsa_queue_size s = queue_size s.rsa_queue

unfoldable pub rsa_queue_capacity : Queues → ℕ
rsa_queue_capacity s = queue_capacity s.rsa_queue

unfoldable pub rsa_queue_dequeue : Queues → Option TibObj × Queues
rsa_queue_dequeue s = dequeue_from of_rsa s

unfoldable pub rsa_queue_enqueue : TibObj → Queues → Option Queues
rsa_queue_enqueue o s = enqueue_to of_rsa o s

unfoldable pub rsa_queue_init : Queues → Queues
rsa_queue_init s = record s { rsa_queue = queue_init }

unfoldable pub psm_queue_size : Queues → ℕ
psm_queue_size s = queue_size s.psm_queue

unfoldable pub psm_queue_capacity : Queues → ℕ
psm_queue_capacity s = queue_capacity s.psm_queue

unfoldable pub psm_queue_dequeue : Queues → Option TibObj × Queues
psm_queue_dequeue s = dequeue_from of_psm s

unfoldable pub psm_queue_enqueue : TibObj → Queues → Option Queues
psm_queue_enqueue o s = enqueue_to of_psm o s

unfoldable pub psm_queue_init : Queues → Queues
psm_queue_init s = record s { psm_queue = queue_init }
