-- ===== src/BufferRing/Ring.antt =====
-- src/buffer.c: the size of a buffer, and the ring of buffers with its indices of one byte. The
-- mutex makes a push or a pop atomic; allocations succeed.
use vips_adaptive_traffi.Common.{
  ℕ, ◌+◌, ◌-◌, ◌%◌, Bool, true, false, Option, some, none, List, replicate, get_or, set, ltb, ◌==◌,
  if◌then◌else◌, u8,
}

abbrev pub default_buff_size : ℕ
default_buff_size = 25600

-- `buffer_t`: where its bytes are, and how many.
pub record Buffer : Type 0 where
  pub buff : ℕ
  pub size : ℕ

unfoldable pub get_buffer_size : Buffer → ℕ
get_buffer_size b = b.size

unfoldable pub decrease_buffer_size : Buffer → ℕ → Buffer
decrease_buffer_size b data_n =
    if ltb b.size data_n then record b { size = 0 } else record b { size = b.size - data_n }

-- In spite of its name it sets the size.
unfoldable pub increase_buffer_size : Buffer → ℕ → Buffer
increase_buffer_size b data_n =
    if ltb default_buff_size data_n
    then record b { size = default_buff_size }
    else record b { size = data_n }

-- `buffer_ring_t`: the slots hold pointers to buffers.
pub record Ring : Type 0 where
  pub slots : List ℕ
  pub max : ℕ
  pub first_record_pointer : ℕ
  pub last_record_pointer : ℕ

unfoldable pub alloc_buffer_ring : ℕ → Ring
alloc_buffer_ring max = record {
  slots = replicate max 0;
  max = u8 max;
  first_record_pointer = 0;
  last_record_pointer = 0;
}

unfoldable pub buff_ring_empty : Ring → Bool
buff_ring_empty r = r.first_record_pointer == r.last_record_pointer

unfoldable pub buff_ring_full : Ring → Bool
buff_ring_full r = (r.last_record_pointer + 1) % r.max == r.first_record_pointer

unfoldable pub buff_ring_push : ℕ → Ring → Bool × Ring
unfolding buff_ring_full
buff_ring_push p r = if buff_ring_full r then (false, r) else (
  true,
  record r {
    slots = set r.slots r.last_record_pointer p;
    last_record_pointer = u8 ((r.last_record_pointer + 1) % r.max);
  },
)

-- The result is NULL (`none`) for an empty ring.
unfoldable pub buff_ring_pop : Ring → Option ℕ × Ring
unfolding buff_ring_empty
buff_ring_pop r = if buff_ring_empty r then (none, r) else (
  some (get_or r.slots r.first_record_pointer 0),
  record r { first_record_pointer = u8 ((r.first_record_pointer + 1) % r.max) },
)
