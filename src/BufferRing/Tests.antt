-- ===== src/BufferRing/Tests.antt =====
-- Calls on a ring of three slots, and their results.
use vips_adaptive_traffi.Common.{◌≡◌, List, [], ◌∷◌, arith}
use vips_adaptive_traffi.BufferRing.Ring.{alloc_buffer_ring}
use vips_adaptive_traffi.BufferRing.Trace.{
  RingCall, push, pop, run_ring, run_queue, run_ring-run_queue,
}

-- The third push is refused; the window then runs over the end of the array.
abbrev calls : List RingCall
calls = push 100 ∷ push 200 ∷ push 300 ∷ pop ∷ push 400 ∷ pop ∷ pop ∷ pop ∷ []

run_ring-run_queue_example : run_ring calls (alloc_buffer_ring 3) ≡ run_queue 3 calls []
run_ring-run_queue_example = run_ring-run_queue 3 calls (omega arith) (omega arith)
