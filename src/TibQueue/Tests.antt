-- ===== src/TibQueue/Tests.antt =====
-- A queue with one message, and the properties of the queues at it.
use vips_adaptive_traffi.Common.{◌≤◌, ◌<◌, ◌≡◌, ◌≢◌, refl, none, [], ◌∷◌}
use vips_adaptive_traffi.TibQueue.Queue.{TibObj, queue_init, remove_head, wait_full}
use vips_adaptive_traffi.TibQueue.Trace.{enqueue, dequeue, run_tib, run_list, run_tib-run_list}
use vips_adaptive_traffi.TibQueue.Threads.{
  Threads, Reachable, start, next, step_wait, step_insert, no_fatal_error,
}

abbrev spat_message : TibObj
spat_message = record { data_pointer = 4096; msg_len = 8; tib_id = 19 }

run_tib-run_list_example :
    run_tib (enqueue spat_message ∷ dequeue ∷ dequeue ∷ []) queue_init
    ≡ run_list (enqueue spat_message ∷ dequeue ∷ dequeue ∷ []) []
run_tib-run_list_example = run_tib-run_list (enqueue spat_message ∷ dequeue ∷ dequeue ∷ [])

-- One thread has inserted its message and not yet announced it.
abbrev unannounced : Threads
unannounced = record {
  queue = record { items = spat_message ∷ []; full = 49; empty = 0 };
  waited = 0;
  inserted = 1;
  awaited = 0;
  removed = 0;
}

unannounced-Reachable : Reachable unannounced
unfolding queue_init wait_full
unannounced-Reachable =
    next (next start (step_wait {q = record { items = []; full = 49; empty = 0 }} refl))
      (step_insert spat_message 0 refl)

no_fatal_error_example : (1 ≤ 50) × (0 < unannounced.awaited → remove_head unannounced.queue ≢ none)
no_fatal_error_example = no_fatal_error unannounced-Reachable
