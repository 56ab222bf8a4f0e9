-- ===== src/ObuRecord/Rows.antt =====
-- The lists of vehicles of a table are kept in order by the operations on them.
use vips_adaptive_traffi.Common.{
  ℕ, zero, suc, ◌≤◌, ◌≡◌, refl, ap, some, List, [], ◌∷◌, Bytes, replicate, All, ltb, map, length,
  get_or, set, arith, ◌==◌, Bool-cases, Option-cases, inl, inr, get_or-set_self, get_or-set_ne,
  set-length_le,
}
use vips_adaptive_traffi.Signal.{VehicleType}
use vips_adaptive_traffi.ObuRecord.Ring.{RecordCommonField, zero_ring}
use vips_adaptive_traffi.ObuRecord.Slots.{IsRecordRing, keep_record-IsRecordRing, push-IsRecordRing}
use vips_adaptive_traffi.ObuRecord.Lists.{
  ObuObject, ObjectStatus, SpeedFilter, djb2_hash, type_index, is_normal, collect, obu_object_new,
  obu_object_search, normal_insert, special_insert, may_be_set, normal_obu_record_insert,
  special_obu_record_insert, special_obu_list_update_status,
}
use vips_adaptive_traffi.ObuRecord.Find.{take-all}
use vips_adaptive_traffi.ObuRecord.Distinct.{
  Distinct, special_insert-Distinct, normal_insert-Distinct, update_found-Distinct,
  collect-Distinct,
}
use vips_adaptive_traffi.ObuRecord.Kept.{
  normal_insert-All, special_insert-All, update_found-All, collect-All,
}

-- Every list of a table, by its index.
abbrev pub Rows : (ℕ → List ObuObject → Type 0) → List (List ObuObject) → Type 0
Rows Q t = (i : ℕ) → Q i (get_or t i [])

update_list-Rows :
    (Q : ℕ → List ObuObject → Type 0) (t : List (List ObuObject)) (i : ℕ) (v : List ObuObject)
    → Rows Q t
    → Q i v
    → Rows Q (set t i v)
update_list-Rows Q t i v h k j = elim (Bool-cases (i == j)) [
  | inl e ↦
      let same : i ≡ j = ground (arith, e) in
      rw (← same) (elim (Bool-cases (ltb i (length t))) [
        | inl b ↦ rw (get_or-set_self t i v [] (ground (arith, b))) k
        | inr b ↦ rw (set-length_le t i v (ground (arith, b))) (h i)
      ])
  | inr e ↦ rw (get_or-set_ne t i j v [] (λ same. ground (arith, e))) (h j)
]

pub empty-Rows :
    (P : ℕ → ObuObject → Type 0) (n : ℕ) → Rows (λ i l. All (P i) l × Distinct l) (replicate n [])
unfolding Distinct
empty-Rows P zero i = (tt, tt)
empty-Rows P (suc n) zero = (tt, tt)
empty-Rows P (suc n) (suc i) = empty-Rows (λ j. P (suc j)) n i

pub get_or-collect :
    (now : ℕ) (t : List (List ObuObject)) (i : ℕ)
    → get_or (map (collect now) t) i [] ≡ collect now (get_or t i [])
unfolding collect
get_or-collect now [] i = refl
get_or-collect now (x ∷ xs) zero = refl
get_or-collect now (x ∷ xs) (suc i) = get_or-collect now xs i

module _ (to_long : ℕ → ℕ) where
  -- A vehicle in the bucket of its hash, and one in the list of its type; both with their ring.
  pub record InBucket (i : ℕ) (o : ObuObject) : Type 0 where
    pub ring_kept : IsRecordRing o.record_ring
    pub hash_is : djb2_hash to_long o.obu_name ≡ i

  pub record InType (i : ℕ) (o : ObuObject) : Type 0 where
    pub ring_kept : IsRecordRing o.record_ring
    pub type_is : type_index o.vehicle_type ≡ some i

  module _ (f : SpeedFilter) where
    pub new-ring : (r : RecordCommonField) → IsRecordRing (obu_object_new f r).record_ring
    unfolding obu_object_new
    new-ring r = record { slots_there = refl; first_in = omega arith; last_in = omega arith }

    pub normal-Rows :
        (r : RecordCommonField) (t : List (List ObuObject))
        → length r.obu_name ≤ 10
        → Rows (λ i l. All (InBucket i) l × Distinct l) t
        → Rows (λ i l. All (InBucket i) l × Distinct l) (normal_obu_record_insert to_long f r t)
    unfolding normal_obu_record_insert obu_object_new
    normal-Rows r t h k = elim (Bool-cases (is_normal r.vehicle_type)) [
      | inl e ↦
          let i = djb2_hash to_long r.obu_name in
          rw (normal_obu_record_insert, e)
            (update_list-Rows (λ i l. All (InBucket i) l × Distinct l) t i
              (normal_insert f r (get_or t i [])) k
              (
                normal_insert-All (InBucket i) f r (get_or t i [])
                    record {
                      ring_kept = new-ring r;
                      hash_is = ap (djb2_hash to_long) (take-all r.obu_name 10 h);
                    }
                    (λ o b. record {
                      ring_kept = keep_record-IsRecordRing r.obu_record o.record_ring b.ring_kept;
                      hash_is = b.hash_is;
                    })
                    (k i).0,
                normal_insert-Distinct f r (get_or t i []) h (k i).1,
              ))
      | inr e ↦ rw (normal_obu_record_insert, e) k
    ]

    pub special-Rows :
        (r : RecordCommonField) (t : List (List ObuObject))
        → length r.obu_name ≤ 10
        → Rows (λ i l. All (InType i) l × Distinct l) t
        → Rows (λ i l. All (InType i) l × Distinct l) (special_obu_record_insert f r t)
    unfolding special_obu_record_insert obu_object_new
    special-Rows r t h k = elim (Option-cases (type_index r.vehicle_type)) [
      | inl e ↦ rw (special_obu_record_insert, e) k
      | inr (i, e) ↦
          rw (special_obu_record_insert, e)
            (update_list-Rows (λ i l. All (InType i) l × Distinct l) t i
              (special_insert f r (get_or t i [])) k
              (
                special_insert-All (InType i) f r (get_or t i [])
                    record {
                      ring_kept = push-IsRecordRing r.obu_record zero_ring (new-ring r);
                      type_is = e;
                    }
                    (λ o b. record {
                      ring_kept = keep_record-IsRecordRing r.obu_record o.record_ring b.ring_kept;
                      type_is = b.type_is;
                    })
                    (k i).0,
                special_insert-Distinct f r (get_or t i []) h (k i).1,
              ))
    ]

    pub status-Rows :
        (name : Bytes) (type : VehicleType) (status : ObjectStatus) (t : List (List ObuObject))
        → Rows (λ i l. All (InType i) l × Distinct l) t
        → Rows
            (λ i l. All (InType i) l × Distinct l)
            (special_obu_list_update_status name type status t).1
    unfolding special_obu_list_update_status
    status-Rows name type status t k = elim (Option-cases (type_index type)) [
      | inl e ↦ rw (special_obu_list_update_status, e) k
      | inr (i, e) ↦ elim (Option-cases (obu_object_search name (get_or t i []))) [
        | inl n ↦ rw (special_obu_list_update_status, e, n) k
        | inr (o, n) ↦ elim (Bool-cases (may_be_set status)) [
          | inr b ↦ rw (special_obu_list_update_status, e, n, b) k
          | inl b ↦
              rw (special_obu_list_update_status, e, n, b)
                (update_list-Rows (λ i l. All (InType i) l × Distinct l) t i _ k
                  (
                    update_found-All (InType i) (λ (x : ObuObject). record x { status = status })
                        (λ x q. record { ring_kept = q.ring_kept; type_is = q.type_is }) name
                        (get_or t i []) (k i).0,
                    update_found-Distinct (λ (x : ObuObject). record x { status = status })
                        (λ x. refl) name (get_or t i []) (k i).1,
                  ))
        ]
      ]
    ]

    pub collect-Rows :
        (P : ℕ → ObuObject → Type 0) (now : ℕ) (t : List (List ObuObject))
        → Rows (λ i l. All (P i) l × Distinct l) t
        → Rows (λ i l. All (P i) l × Distinct l) (map (collect now) t)
    collect-Rows P now t k i = rw (get_or-collect now t i) (
      collect-All (P i) now (get_or t i []) (k i).0,
      collect-Distinct now (get_or t i []) (k i).1,
    )
