-- ===== src/ObuRecord/Ring.antt =====
-- src/OBU_record_processing.c and include/typedefine.h: the records of a vehicle and the ring that
-- keeps them. A `float` is its 32 bits.
use vips_adaptive_traffi.Common.{
  ℕ, ◌+◌, ◌%◌, Bool, Bytes, List, replicate, get_or, set, ◌==◌, if◌then◌else◌, u8,
}
use vips_adaptive_traffi.Signal.{VehicleType}

abbrev pub obu_record_ring_capacity : ℕ
obu_record_ring_capacity = 5

-- `OBU_record_t`.
pub record ObuRecord : Type 0 where
  pub time_second : ℕ
  pub time_nsec : ℕ
  pub position_lon : ℕ
  pub position_lat : ℕ
  pub speed : ℕ
  pub direction : ℕ

abbrev pub zero_record : ObuRecord
zero_record = record {
  time_second = 0;
  time_nsec = 0;
  position_lon = 0;
  position_lat = 0;
  speed = 0;
  direction = 0;
}

-- `OBU_record_common_field_t`: its first fields are an `OBU_record_t`, which is what a cast of its
-- address gives.
pub record RecordCommonField : Type 0 where
  pub obu_record : ObuRecord
  pub obu_name : Bytes
  pub vehicle_type : VehicleType

-- `OBU_record_ring_t`: the indices and the length are bytes.
pub record RecordRing : Type 0 where
  pub records : List ObuRecord
  pub first_record_pointer : ℕ
  pub last_record_pointer : ℕ
  pub length : ℕ

abbrev pub zero_ring : RecordRing
zero_ring = record {
  records = replicate obu_record_ring_capacity zero_record;
  first_record_pointer = 0;
  last_record_pointer = 0;
  length = 0;
}

unfoldable pub obu_record_ring_empty : ℕ → ℕ → Bool
obu_record_ring_empty front back = front == back

unfoldable pub obu_record_ring_full : ℕ → ℕ → Bool
obu_record_ring_full front back = (back + 1) % obu_record_ring_capacity == front

-- The index goes on twice.
unfoldable pub obu_record_ring_push : ObuRecord → RecordRing → RecordRing
obu_record_ring_push x r =
    let once = (r.last_record_pointer + 1) % obu_record_ring_capacity in
    let twice = (once + 1) % obu_record_ring_capacity in
    record r {
      records = set r.records twice x;
      last_record_pointer = twice;
      length = u8 (r.length + 1);
    }

-- A length of 0 wraps to 255.
unfoldable pub obu_record_ring_pop : RecordRing → RecordRing
obu_record_ring_pop r = record r {
  first_record_pointer = (r.first_record_pointer + 1) % obu_record_ring_capacity;
  length = u8 (r.length + 255);
}

-- The insertion of a record into the ring of an object that exists.
unfoldable pub keep_record : ObuRecord → RecordRing → RecordRing
unfolding obu_record_ring_push obu_record_ring_pop obu_record_ring_full
keep_record x r =
    if obu_record_ring_full r.first_record_pointer r.last_record_pointer
    then obu_record_ring_push x (obu_record_ring_pop r)
    else obu_record_ring_push x r

-- The record that the applications read.
abbrev pub last_record : RecordRing → ObuRecord
last_record r = get_or r.records r.last_record_pointer zero_record
