-- ===== src/BufferRing/Trace.antt =====
-- Any sequence of pushes and pops of the ring of src/buffer.c, from its allocation on.
use vips_adaptive_traffi.Common.{ℕ, ◌<◌, ◌≡◌, refl, ap₂, ◌∙◌, Bool, Option, List, [], ◌∷◌}
use vips_adaptive_traffi.BufferRing.Ring.{Ring, alloc_buffer_ring, buff_ring_push, buff_ring_pop}
use vips_adaptive_traffi.BufferRing.Queue.{
  IsRing, content, push_list, pop_list, buff_ring_push-refines, buff_ring_pop-refines,
  alloc_buffer_ring-IsRing, alloc_buffer_ring-max, buff_ring_push-max, buff_ring_pop-max,
}

-- A call, and its result.
pub data RingCall : Type 0 where
  push : ℕ → RingCall
  pop : RingCall

pub data RingResult : Type 0 where
  pushed : Bool → RingResult
  popped : Option ℕ → RingResult

-- The results of the calls on the ring, and on a queue of at most `m - 1` buffers.
unfoldable pub run_ring : List RingCall → Ring → List RingResult
run_ring [] r = []
run_ring (push p ∷ cs) r = pushed (buff_ring_push p r).0 ∷ run_ring cs (buff_ring_push p r).1
run_ring (pop ∷ cs) r = popped (buff_ring_pop r).0 ∷ run_ring cs (buff_ring_pop r).1

unfoldable pub run_queue : ℕ → List RingCall → List ℕ → List RingResult
run_queue m [] xs = []
run_queue m (push p ∷ cs) xs = pushed (push_list m p xs).0 ∷ run_queue m cs (push_list m p xs).1
run_queue m (pop ∷ cs) xs = popped (pop_list xs).0 ∷ run_queue m cs (pop_list xs).1

run_ring-content :
    (cs : List RingCall) (r : Ring) → IsRing r → run_ring cs r ≡ run_queue r.max cs (content r)
unfolding run_ring run_queue
run_ring-content [] r h = refl
run_ring-content (push p ∷ cs) r h =
    let (result, after, there) = buff_ring_push-refines p r h in
    let rest = run_ring-content cs (buff_ring_push p r).1 there in
    ap₂ (λ b l. pushed b ∷ l) result
      (rest ∙ ap₂ (λ m xs. run_queue m cs xs) (buff_ring_push-max p r) after)
run_ring-content (pop ∷ cs) r h =
    let (result, after, there) = buff_ring_pop-refines r h in
    let rest = run_ring-content cs (buff_ring_pop r).1 there in
    ap₂ (λ o l. popped o ∷ l) result
      (rest ∙ ap₂ (λ m xs. run_queue m cs xs) (buff_ring_pop-max r) after)

-- The ring is a bounded queue: for any sequence of pushes and pops from the allocation of a ring of
-- 1 to 255 slots on, every result is that of a queue of one buffer less, which refuses a push exactly
-- when it is full, gives the oldest buffer, and gives NULL exactly when it is empty.
pub run_ring-run_queue :
    (n : ℕ) (cs : List RingCall)
    → 0 < n
    → n < 256
    → run_ring cs (alloc_buffer_ring n) ≡ run_queue n cs []
run_ring-run_queue n cs h k =
    let (there, empty) = alloc_buffer_ring-IsRing n h k in
    run_ring-content cs (alloc_buffer_ring n) there
    ∙ ap₂ (λ m xs. run_queue m cs xs) (alloc_buffer_ring-max n k) empty
