-- ===== src/ObuRecord/Slots.antt =====
-- The indices of the ring of records stay in range, and the last one is that of the newest record.
use vips_adaptive_traffi.Common.{
  ◌+◌, ◌%◌, ◌<◌, ◌≡◌, ◌∙◌, inl, inr, Bool-cases, length, arith, get_or-set_self, length-set,
}
use vips_adaptive_traffi.ObuRecord.Ring.{
  ObuRecord, RecordRing, zero_record, obu_record_ring_full, obu_record_ring_push,
  obu_record_ring_pop, keep_record, last_record,
}

-- The ring has its slots and its indices stand in it.
pub record IsRecordRing (r : RecordRing) : Type 0 where
  pub slots_there : length r.records ≡ 5
  pub first_in : r.first_record_pointer < 5
  pub last_in : r.last_record_pointer < 5

pub push-IsRecordRing :
    (x : ObuRecord) (r : RecordRing) → IsRecordRing r → IsRecordRing (obu_record_ring_push x r)
unfolding obu_record_ring_push
push-IsRecordRing x r h =
    let l' = (((r.last_record_pointer + 1) % 5) + 1) % 5 in
    record {
      slots_there = length-set r.records l' x ∙ h.slots_there;
      first_in = h.first_in;
      last_in = omega arith;
    }

pop-IsRecordRing : (r : RecordRing) → IsRecordRing r → IsRecordRing (obu_record_ring_pop r)
unfolding obu_record_ring_pop
pop-IsRecordRing r h = record {
  slots_there = h.slots_there;
  first_in = omega arith;
  last_in = h.last_in;
}

pub push-last :
    (x : ObuRecord) (r : RecordRing) → IsRecordRing r → last_record (obu_record_ring_push x r) ≡ x
unfolding obu_record_ring_push
push-last x r h =
    get_or-set_self r.records ((((r.last_record_pointer + 1) % 5) + 1) % 5) x zero_record
      (omega (arith, h.slots_there))

pub keep_record-IsRecordRing :
    (x : ObuRecord) (r : RecordRing) → IsRecordRing r → IsRecordRing (keep_record x r)
unfolding keep_record
keep_record-IsRecordRing x r h =
    elim (Bool-cases (obu_record_ring_full r.first_record_pointer r.last_record_pointer)) [
      | inl e ↦ rw e (push-IsRecordRing x (obu_record_ring_pop r) (pop-IsRecordRing r h))
      | inr e ↦ rw e (push-IsRecordRing x r h)
    ]

pub keep_record-last :
    (x : ObuRecord) (r : RecordRing) → IsRecordRing r → last_record (keep_record x r) ≡ x
unfolding keep_record
keep_record-last x r h =
    elim (Bool-cases (obu_record_ring_full r.first_record_pointer r.last_record_pointer)) [
      | inl e ↦ rw e (push-last x (obu_record_ring_pop r) (pop-IsRecordRing r h))
      | inr e ↦ rw e (push-last x r h)
    ]
