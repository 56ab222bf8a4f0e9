-- ===== src/TibQueue/Threads.antt =====
-- Threads that use one queue of application/TIB/src/TIB_queue.c at the same time: each atomic part
-- of an operation is a step, in any order.
use vips_adaptive_traffi.Common.{
  ℕ, ◌+◌, ◌≤◌, ◌<◌, ◌≡◌, ◌≢◌, none, some, [], ◌∷◌, length, arith, length-append,
}
use vips_adaptive_traffi.TibQueue.Queue.{
  TibObj, TibQueue, queue_init, max_tib_queue_size, wait_full, insert_tail, post_empty,
  trywait_empty, remove_head, post_full,
}

-- The queue, and how many threads are between two parts: past `sem_wait(&full)`, past the insertion,
-- past `sem_trywait(&empty)`, past the removal.
pub record Threads : Type 0 where
  pub queue : TibQueue
  pub waited : ℕ
  pub inserted : ℕ
  pub awaited : ℕ
  pub removed : ℕ

pub data Step : Threads → Threads → Type 0 where
  step_wait :
      {s : Threads} {q : TibQueue}
      → wait_full s.queue ≡ some q
      → Step s (record s { queue = q; waited = s.waited + 1 })
  step_insert :
      {s : Threads} (o : TibObj) (n : ℕ)
      → s.waited ≡ n + 1
      → Step s (record s { queue = insert_tail o s.queue; waited = n; inserted = s.inserted + 1 })
  step_post_empty :
      {s : Threads} (n : ℕ)
      → s.inserted ≡ n + 1
      → Step s (record s { queue = post_empty s.queue; inserted = n })
  step_trywait :
      {s : Threads} {q : TibQueue}
      → trywait_empty s.queue ≡ some q
      → Step s (record s { queue = q; awaited = s.awaited + 1 })
  step_remove :
      {s : Threads} {o : TibObj} {q : TibQueue} (n : ℕ)
      → s.awaited ≡ n + 1
      → remove_head s.queue ≡ some (o, q)
      → Step s (record s { queue = q; awaited = n; removed = s.removed + 1 })
  step_no_head :
      {s : Threads} (n : ℕ)
      → s.awaited ≡ n + 1
      → remove_head s.queue ≡ none
      → Step s (record s { awaited = n })
  step_post_full :
      {s : Threads} (n : ℕ)
      → s.removed ≡ n + 1
      → Step s (record s { queue = post_full s.queue; removed = n })

abbrev pub initial : Threads
initial = record { queue = queue_init; waited = 0; inserted = 0; awaited = 0; removed = 0 }

pub data Reachable : Threads → Type 0 where
  start : Reachable initial
  next : {s s' : Threads} → Reachable s → Step s s' → Reachable s'

-- Every place is free, promised, taken or being freed; every message is announced or not yet, and
-- those that a thread has awaited are still there.
pub record IsSound (s : Threads) : Type 0 where
  pub places : s.queue.full + s.waited + length s.queue.items + s.removed ≡ max_tib_queue_size
  pub messages : s.queue.empty + s.inserted + s.awaited ≡ length s.queue.items

wait_full-parts :
    (q q' : TibQueue)
    → wait_full q ≡ some q'
    → (q.full ≡ q'.full + 1) × (length q'.items ≡ length q.items) × (q'.empty ≡ q.empty)
unfolding wait_full
wait_full-parts q q' h = ground arith

trywait_empty-parts :
    (q q' : TibQueue)
    → trywait_empty q ≡ some q'
    → (q.empty ≡ q'.empty + 1) × (length q'.items ≡ length q.items) × (q'.full ≡ q.full)
unfolding trywait_empty
trywait_empty-parts q q' h = ground arith

remove_head-parts :
    (q : TibQueue) (o : TibObj) (q' : TibQueue)
    → remove_head q ≡ some (o, q')
    → (length q.items ≡ length q'.items + 1) × (q'.empty ≡ q.empty) × (q'.full ≡ q.full)
unfolding remove_head
remove_head-parts q o q' h = ground arith

remove_head-none : (q : TibQueue) → remove_head q ≡ none → length q.items ≡ 0
unfolding remove_head
remove_head-none q h = ground arith

Step-IsSound : {s s' : Threads} → Step s s' → IsSound s → IsSound s'
Step-IsSound (step_wait {s} {q} e) i = omega (arith, wait_full-parts s.queue q e, i)
Step-IsSound (step_insert {s} o n e) i = omega (arith, i, length-append s.queue.items (o ∷ []))
Step-IsSound (step_post_empty n e) i = omega (arith, i)
Step-IsSound (step_trywait {s} {q} e) i = omega (arith, trywait_empty-parts s.queue q e, i)
Step-IsSound (step_remove {s} {o} {q} n e f) i = omega (arith, remove_head-parts s.queue o q f, i)
Step-IsSound (step_no_head {s} n e f) i = absurd (omega (arith, remove_head-none s.queue f, i))
Step-IsSound (step_post_full n e) i = omega (arith, i)

Reachable-IsSound : {s : Threads} → Reachable s → IsSound s
unfolding queue_init
Reachable-IsSound start = omega arith
Reachable-IsSound (next r step) = Step-IsSound step (Reachable-IsSound r)

-- However the threads interleave, there are never more than 50 messages, and a thread that was
-- let past `sem_trywait(&empty)` finds a head, so that the "fatal error" branch is dead code.
pub no_fatal_error :
    {s : Threads}
    → Reachable s
    → (length s.queue.items ≤ max_tib_queue_size) × (0 < s.awaited → remove_head s.queue ≢ none)
no_fatal_error {s} r = (
  omega (arith, Reachable-IsSound r),
  λ h e. omega (arith, Reachable-IsSound r, remove_head-none s.queue e),
)
