-- ===== src/ObuRecord/Reach.antt =====
-- The vehicles that the program can have, after any sequence of records, changes of status and
-- garbage collections.
use vips_adaptive_traffi.Common.{
  ℕ, ◌≤◌, ◌≡◌, refl, ◌∙◌, List, [], Bytes, All, length, get_or, Bool-cases, Option-cases, inl, inr,
  length-set, length-map,
}
use vips_adaptive_traffi.Signal.{VehicleType}
use vips_adaptive_traffi.ObuRecord.Ring.{RecordCommonField}
use vips_adaptive_traffi.ObuRecord.Lists.{
  ObuObject, ObjectStatus, ObuLists, SpeedFilter, type_index, is_normal, collect, obu_object_search,
  may_be_set, normal_obu_record_insert, special_obu_record_insert, special_obu_list_update_status,
  obu_object_garbage_collection, obu_object_garbage_collection_init,
}
use vips_adaptive_traffi.ObuRecord.Distinct.{Distinct}
use vips_adaptive_traffi.ObuRecord.Rows.{
  Rows, empty-Rows, InBucket, InType, normal-Rows, special-Rows, status-Rows, collect-Rows,
}

module _ (to_long : ℕ → ℕ) where
  pub record IsSoundLists (s : ObuLists) : Type 0 where
    pub buckets : length s.normal_obu_list ≡ 10
    pub types : length s.special_obu_list ≡ 4
    pub in_buckets : Rows (λ i l. All (InBucket to_long i) l × Distinct l) s.normal_obu_list
    pub in_types : Rows (λ i l. All (InType to_long i) l × Distinct l) s.special_obu_list

  module _ (f : SpeedFilter) where
    -- A record of a vehicle, whose name is a C string in 11 bytes; a change of its status; a garbage
    -- collection.
    pub data Step : ObuLists → ObuLists → Type 0 where
      step_normal :
          {s : ObuLists} (r : RecordCommonField)
          → length r.obu_name ≤ 10
          → Step s (record s {
            normal_obu_list = normal_obu_record_insert to_long f r s.normal_obu_list;
          })
      step_special :
          {s : ObuLists} (r : RecordCommonField)
          → length r.obu_name ≤ 10
          → Step s
              (record s { special_obu_list = special_obu_record_insert f r s.special_obu_list })
      step_status :
          {s : ObuLists} (name : Bytes) (type : VehicleType) (status : ObjectStatus)
          → Step s (record s {
            special_obu_list =
                (special_obu_list_update_status name type status s.special_obu_list).1;
          })
      step_collect : {s : ObuLists} (now : ℕ) → Step s (obu_object_garbage_collection now s)

    pub data Reachable : ObuLists → Type 0 where
      start : Reachable obu_object_garbage_collection_init
      next : {s s' : ObuLists} → Reachable s → Step s s' → Reachable s'

    normal-length :
        (r : RecordCommonField) (t : List (List ObuObject))
        → length (normal_obu_record_insert to_long f r t) ≡ length t
    unfolding normal_obu_record_insert
    normal-length r t = elim (Bool-cases (is_normal r.vehicle_type)) [
      | inl e ↦ rw (normal_obu_record_insert, e) (length-set t _ _)
      | inr e ↦ rw (normal_obu_record_insert, e) refl
    ]

    special-length :
        (r : RecordCommonField) (t : List (List ObuObject))
        → length (special_obu_record_insert f r t) ≡ length t
    unfolding special_obu_record_insert
    special-length r t = elim (Option-cases (type_index r.vehicle_type)) [
      | inl e ↦ rw (special_obu_record_insert, e) refl
      | inr (i, e) ↦ rw (special_obu_record_insert, e) (length-set t i _)
    ]

    status-length :
        (name : Bytes) (type : VehicleType) (status : ObjectStatus) (t : List (List ObuObject))
        → length (special_obu_list_update_status name type status t).1 ≡ length t
    unfolding special_obu_list_update_status
    status-length name type status t = elim (Option-cases (type_index type)) [
      | inl e ↦ rw (special_obu_list_update_status, e) refl
      | inr (i, e) ↦ elim (Option-cases (obu_object_search name (get_or t i []))) [
        | inl n ↦ rw (special_obu_list_update_status, e, n) refl
        | inr (o, n) ↦ elim (Bool-cases (may_be_set status)) [
          | inr b ↦ rw (special_obu_list_update_status, e, n, b) refl
          | inl b ↦ rw (special_obu_list_update_status, e, n, b) (length-set t i _)
        ]
      ]
    ]

    Step-IsSoundLists : {s s' : ObuLists} → Step s s' → IsSoundLists s → IsSoundLists s'
    unfolding obu_object_garbage_collection
    Step-IsSoundLists {s} (step_normal r k) h = record {
      buckets = normal-length r s.normal_obu_list ∙ h.buckets;
      types = h.types;
      in_buckets = normal-Rows to_long f r s.normal_obu_list k h.in_buckets;
      in_types = h.in_types;
    }
    Step-IsSoundLists {s} (step_special r k) h = record {
      buckets = h.buckets;
      types = special-length r s.special_obu_list ∙ h.types;
      in_buckets = h.in_buckets;
      in_types = special-Rows to_long f r s.special_obu_list k h.in_types;
    }
    Step-IsSoundLists {s} (step_status name type status) h = record {
      buckets = h.buckets;
      types = status-length name type status s.special_obu_list ∙ h.types;
      in_buckets = h.in_buckets;
      in_types = status-Rows to_long f name type status s.special_obu_list h.in_types;
    }
    Step-IsSoundLists {s} (step_collect now) h = record {
      buckets = length-map (collect now) s.normal_obu_list ∙ h.buckets;
      types = length-map (collect now) s.special_obu_list ∙ h.types;
      in_buckets = collect-Rows to_long f (InBucket to_long) now s.normal_obu_list h.in_buckets;
      in_types = collect-Rows to_long f (InType to_long) now s.special_obu_list h.in_types;
    }

    -- In every state that the program can reach, each vehicle stands once, in the bucket of its hash or
    -- in the list of its type, the arrays have their sizes, and the indices of every ring of records
    -- are below its capacity.
    pub Reachable-IsSoundLists : {s : ObuLists} → Reachable s → IsSoundLists s
    unfolding obu_object_garbage_collection_init Distinct
    Reachable-IsSoundLists start = record {
      buckets = refl;
      types = refl;
      in_buckets = empty-Rows (InBucket to_long) 10;
      in_types = empty-Rows (InType to_long) 4;
    }
    Reachable-IsSoundLists (next r st) = Step-IsSoundLists st (Reachable-IsSoundLists r)
