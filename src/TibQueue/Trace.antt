-- ===== src/TibQueue/Trace.antt =====
-- Any sequence of operations on a queue of application/TIB/src/TIB_queue.c, from its initialisation
-- on, by one thread.
use vips_adaptive_traffi.Common.{
  ◌≡◌, refl, sym, ap, ap₂, ◌∙◌, Option, none, some, List, [], ◌∷◌, Option-cases, inl, inr,
}
use vips_adaptive_traffi.TibQueue.Queue.{TibObj, TibQueue, queue_init, queue_enqueue, queue_dequeue}
use vips_adaptive_traffi.TibQueue.Fifo.{
  IsIdle, queue_init-IsIdle, enqueue_list, dequeue_list, items_of, after, queue_enqueue-refines,
  queue_dequeue-refines,
}

-- A call, and its result; a thread that blocks makes no further call.
pub data TibCall : Type 0 where
  enqueue : TibObj → TibCall
  dequeue : TibCall

pub data TibResult : Type 0 where
  enqueued blocked : TibResult
  dequeued : Option TibObj → TibResult

-- The results of the calls on a queue, and on a list of at most 50 messages.
unfoldable pub run_tib : List TibCall → TibQueue → List TibResult
run_tib [] q = []
run_tib (enqueue o ∷ cs) q = elim (queue_enqueue o q) [
  | none ↦ blocked ∷ []
  | some q' ↦ enqueued ∷ run_tib cs q'
]
run_tib (dequeue ∷ cs) q = dequeued (queue_dequeue q).0 ∷ run_tib cs (queue_dequeue q).1

unfoldable pub run_list : List TibCall → List TibObj → List TibResult
run_list [] xs = []
run_list (enqueue o ∷ cs) xs = elim (enqueue_list o xs) [
  | none ↦ blocked ∷ []
  | some xs' ↦ enqueued ∷ run_list cs xs'
]
run_list (dequeue ∷ cs) xs = dequeued (dequeue_list xs).0 ∷ run_list cs (dequeue_list xs).1

run_tib-items : (cs : List TibCall) (q : TibQueue) → IsIdle q → run_tib cs q ≡ run_list cs q.items
unfolding run_tib run_list
run_tib-items [] q idle = refl
run_tib-items (enqueue o ∷ cs) q idle =
    let (items, idle') = queue_enqueue-refines o q idle in
    elim (Option-cases (queue_enqueue o q)) [
      | inl e ↦
          let full : enqueue_list o q.items ≡ none = sym items ∙ ap items_of e in
          rw (run_tib, run_list, e, full) refl
      | inr (q', e) ↦
          let room : enqueue_list o q.items ≡ some q'.items = sym items ∙ ap items_of e in
          let there : IsIdle q' = rw (← ap (after q) e) idle' in
          rw (run_tib, run_list, e, room) (ap (λ l. enqueued ∷ l) (run_tib-items cs q' there))
    ]
run_tib-items (dequeue ∷ cs) q idle =
    let (result, items, idle') = queue_dequeue-refines q idle in
    ap₂ (λ o l. dequeued o ∷ l) result
      (run_tib-items cs (queue_dequeue q).1 idle' ∙ ap (run_list cs) items)

-- A queue is a first-in first-out list of at most 50 messages: for any sequence of calls of one thread
-- from its initialisation on, every result is that of the list. An enqueue blocks exactly when there
-- are 50 messages, and a dequeue gives the oldest message, or NULL exactly when there is none.
pub run_tib-run_list : (cs : List TibCall) → run_tib cs queue_init ≡ run_list cs []
unfolding queue_init
run_tib-run_list cs = run_tib-items cs queue_init queue_init-IsIdle
