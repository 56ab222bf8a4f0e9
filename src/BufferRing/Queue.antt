-- ===== src/BufferRing/Queue.antt =====
-- The ring of src/buffer.c as a bounded queue.
use vips_adaptive_traffi.Common.{
  ℕ, suc, ◌≤◌, ◌<◌, ◌≡◌, refl, sym, ap, ◌∙◌, Bool, true, false, Option, some, none, List, [], ◌∷◌,
  ◌++◌, length, get_or, set, arith, ◌==◌, if◌then◌else◌, length-set, length-replicate, inl, inr,
  Bool-cases,
}
use vips_adaptive_traffi.BufferRing.Ring.{
  Ring, alloc_buffer_ring, buff_ring_empty, buff_ring_full, buff_ring_push, buff_ring_pop,
}
use vips_adaptive_traffi.BufferRing.Window.{
  succ, distance, window, mod_succ, length-window, full_iff, succ_in, succ_byte, window-push,
  window-pop,
}

-- The buffers in the ring, the oldest first.
abbrev pub content : Ring → List ℕ
content r =
    window r.slots r.max (distance r.max r.first_record_pointer r.last_record_pointer)
      r.first_record_pointer

pub record IsRing (r : Ring) : Type 0 where
  pub slots_there : r.max ≤ length r.slots
  pub first_in : r.first_record_pointer < r.max
  pub last_in : r.last_record_pointer < r.max
  pub max_byte : r.max < 256

-- A queue of at most `max - 1` buffers.
abbrev pub push_list : ℕ → ℕ → List ℕ → Bool × List ℕ
push_list m p xs = if suc (length xs) == m then (false, xs) else (true, xs ++ (p ∷ []))

abbrev pub pop_list : List ℕ → Option ℕ × List ℕ
pop_list [] = (none, [])
pop_list (x ∷ xs) = (some x, xs)

push_eq :
    (p : ℕ) (r : Ring)
    → IsRing r
    → buff_ring_push p r ≡ (
        if succ r.max r.last_record_pointer == r.first_record_pointer then (false, r) else (
          true,
          record r {
            slots = set r.slots r.last_record_pointer p;
            last_record_pointer = succ r.max r.last_record_pointer;
          },
        ))
unfolding buff_ring_push buff_ring_full
push_eq p r h =
    rw
      (
        succ_byte r.max r.last_record_pointer h.last_in h.max_byte,
        mod_succ r.max r.last_record_pointer h.last_in,
      )
      refl

pop_eq :
    (r : Ring)
    → IsRing r
    → buff_ring_pop r ≡ (
        if r.first_record_pointer == r.last_record_pointer then (none, r) else (
          some (get_or r.slots r.first_record_pointer 0),
          record r { first_record_pointer = succ r.max r.first_record_pointer },
        ))
unfolding buff_ring_pop buff_ring_empty
pop_eq r h = rw (succ_byte r.max r.first_record_pointer h.first_in h.max_byte) refl

-- On a ring with its indices in range a push is that of a queue of at most max - 1 buffers: it is
-- refused exactly when there are that many, and else the buffer becomes the last. The indices stay
-- in range.
pub buff_ring_push-refines :
    (p : ℕ) (r : Ring)
    → IsRing r
    → ((buff_ring_push p r).0 ≡ (push_list r.max p (content r)).0)
      × (content (buff_ring_push p r).1 ≡ (push_list r.max p (content r)).1)
      × IsRing (buff_ring_push p r).1
buff_ring_push-refines p r h =
    let count = length-window r.slots r.max (distance r.max i l) i in
    let full = full_iff r.max i l h.first_in h.last_in in
    let same : (suc (length (content r)) == r.max) ≡ (succ r.max l == i) =
      ap (λ n. suc n == r.max) count ∙ sym full in
    rw (push_eq p r h) (
      rw same (elim (Bool-cases (succ r.max l == i)) [
        | inl e ↦ rw e (refl, refl, h)
        | inr e ↦ rw e (
          refl,
          window-push r.slots r.max i l p h.slots_there h.first_in h.last_in e,
          record {
            slots_there = omega (arith, length-set r.slots l p, h.slots_there);
            first_in = h.first_in;
            last_in = succ_in r.max l h.last_in;
            max_byte = h.max_byte;
          },
        )
      ]))
  where
    i : ℕ
    i = r.first_record_pointer

    l : ℕ
    l = r.last_record_pointer

-- A pop is that of the queue: NULL exactly when there is no buffer, and else the oldest one, which
-- is removed. The indices stay in range.
pub buff_ring_pop-refines :
    (r : Ring)
    → IsRing r
    → ((buff_ring_pop r).0 ≡ (pop_list (content r)).0)
      × (content (buff_ring_pop r).1 ≡ (pop_list (content r)).1)
      × IsRing (buff_ring_pop r).1
buff_ring_pop-refines r h = rw (pop_eq r h) (elim (Bool-cases (i == l)) [
  | inl e ↦
      let none_left : content r ≡ [] =
        ap (λ n. window r.slots r.max n i) (empty r.max i l h.first_in h.last_in e) in
      rw e (rw none_left (refl, refl, h))
  | inr e ↦
      let first = window-pop r.slots r.max i l h.first_in h.last_in e in
      rw e (
        rw first (
          refl,
          refl,
          record {
            slots_there = h.slots_there;
            first_in = succ_in r.max i h.first_in;
            last_in = h.last_in;
            max_byte = h.max_byte;
          },
        ))
])
  where
    i : ℕ
    i = r.first_record_pointer

    l : ℕ
    l = r.last_record_pointer

    empty : (m a b : ℕ) → a < m → b < m → (a == b) ≡ true → distance m a b ≡ 0
    empty m a b h' k' e' = ground arith

-- A new ring of 1 to 255 slots is empty and has its indices in range. The size is kept in a byte.
pub alloc_buffer_ring-IsRing :
    (n : ℕ) → 0 < n → n < 256 → IsRing (alloc_buffer_ring n) × (content (alloc_buffer_ring n) ≡ [])
unfolding alloc_buffer_ring
alloc_buffer_ring-IsRing n h k = (
  record {
    slots_there = omega (arith, length-replicate {A = ℕ} n 0);
    first_in = omega arith;
    last_in = omega arith;
    max_byte = omega arith;
  },
  refl,
)

pub alloc_buffer_ring-max : (n : ℕ) → n < 256 → (alloc_buffer_ring n).max ≡ n
unfolding alloc_buffer_ring
alloc_buffer_ring-max n h = omega arith

pub buff_ring_push-max : (p : ℕ) (r : Ring) → (buff_ring_push p r).1.max ≡ r.max
unfolding buff_ring_push buff_ring_full
buff_ring_push-max p r = ground arith

pub buff_ring_pop-max : (r : Ring) → (buff_ring_pop r).1.max ≡ r.max
unfolding buff_ring_pop buff_ring_empty
buff_ring_pop-max r = ground arith
