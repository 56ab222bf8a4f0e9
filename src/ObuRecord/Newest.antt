-- ===== src/ObuRecord/Newest.antt =====
-- What the garbage collection and the record of a special vehicle do to the lists of vehicles.
use vips_adaptive_traffi.Common.{
  ℕ, ◌+◌, ◌⊎◌, none, Option, ◌≤◌, ◌<◌, ◌≡◌, ◌≢◌, refl, sym, ◌∙◌, some, List, [], ◌∷◌, Bytes,
  bytes_eq, bytes_eq_iff, length, get_or, arith, Bool-cases, Option-cases, inl, inr,
  get_or-set_self, All,
}
use vips_adaptive_traffi.Signal.{
  VehicleType, vehicle_normal, vehicle_ambulance, vehicle_bus, vehicle_fire_truck,
  vehicle_police_car,
}
use vips_adaptive_traffi.ObuRecord.Ring.{RecordCommonField, last_record, zero_ring}
use vips_adaptive_traffi.ObuRecord.Slots.{keep_record-last, push-last}
use vips_adaptive_traffi.ObuRecord.Lists.{
  ObuObject, is_expired, ObuLists, SpeedFilter, type_index, obu_object_new, obu_object_search,
  special_insert, special_obu_record_insert, obu_object_garbage_collection, move_to_head,
  unlink_found, push_to, predict,
}
use vips_adaptive_traffi.ObuRecord.Find.{search-name, special_insert-search, take-all}
use vips_adaptive_traffi.ObuRecord.Distinct.{fresh, collect-search}
use vips_adaptive_traffi.ObuRecord.Kept.{search-All}
use vips_adaptive_traffi.ObuRecord.Reach.{Reachable, Reachable-IsSoundLists}
use vips_adaptive_traffi.ObuRecord.Rows.{InType, get_or-collect}

index_below : (v : VehicleType) (j : ℕ) → type_index v ≡ some j → j < 4
unfolding type_index
index_below vehicle_normal j q = ground arith
index_below vehicle_ambulance j q = ground arith
index_below vehicle_bus j q = ground arith
index_below vehicle_fire_truck j q = ground arith
index_below vehicle_police_car j q = ground arith

move_to_head-first :
    (n : Bytes) (o : ObuObject) (l : List ObuObject)
    → (others : List ObuObject) × (move_to_head n o l ≡ o ∷ others)
unfolding move_to_head
move_to_head-first n o [] = ([], refl)
move_to_head-first n o (x ∷ xs) = elim (Bool-cases (bytes_eq x.obu_name n)) [
  | inl b ↦ (xs, rw b refl)
  | inr b ↦ (unlink_found n (x ∷ xs), rw b refl)
]

-- What a search finds after the garbage collection, from what it found before.
abbrev pub Collected : ℕ → Option ObuObject → Option ObuObject → Type 0
Collected now before after =
    ((before ≡ none) × (after ≡ none))
    ⊎ ((o : ObuObject) × (before ≡ some o)
        × (((now ≤ (last_record o.record_ring).time_second + 60) × (after ≡ some o))
            ⊎ (((last_record o.record_ring).time_second + 60 < now) × (after ≡ none))))

fresh-Collected :
    (now : ℕ) (before after : Option ObuObject)
    → after ≡ fresh now before
    → Collected now before after
fresh-Collected now none after e = inl (refl, e)
fresh-Collected now (some o) after e = elim (Bool-cases (is_expired now o)) [
  | inl old ↦ inr (o, refl, inr (ground (arith, old), e ∙ rw old refl))
  | inr new ↦ inr (o, refl, inl (ground (arith, new), e ∙ rw new refl))
]

module _ (to_long : ℕ → ℕ) (f : SpeedFilter) where
  pub garbage_collection-fresh :
      (s : ObuLists) (now i : ℕ) (m : Bytes)
      → Reachable to_long f s
      → (obu_object_search m (get_or (obu_object_garbage_collection now s).normal_obu_list i [])
          ≡ fresh now (obu_object_search m (get_or s.normal_obu_list i [])))
        × (obu_object_search m (get_or (obu_object_garbage_collection now s).special_obu_list i [])
            ≡ fresh now (obu_object_search m (get_or s.special_obu_list i [])))
  unfolding obu_object_garbage_collection
  garbage_collection-fresh s now i m r =
      let h = Reachable-IsSoundLists to_long f r in
      (
        rw (get_or-collect now s.normal_obu_list i)
            (collect-search now m (get_or s.normal_obu_list i []) (h.in_buckets i).1),
        rw (get_or-collect now s.special_obu_list i)
            (collect-search now m (get_or s.special_obu_list i []) (h.in_types i).1),
      )

  -- The garbage collection forgets exactly the vehicles whose last record is more than 60 seconds old: in
  -- every reachable state, in every list, a search that found nothing finds nothing, and one that found
  -- a vehicle finds the same one if its last record is not older than that, and nothing if it is.
  pub garbage_collection-search :
      (s : ObuLists) (now i : ℕ) (m : Bytes)
      → Reachable to_long f s
      → Collected now
          (obu_object_search m (get_or s.normal_obu_list i []))
          (obu_object_search m (get_or (obu_object_garbage_collection now s).normal_obu_list i []))
        × Collected now (obu_object_search m (get_or s.special_obu_list i [])) (
            obu_object_search m
              (get_or (obu_object_garbage_collection now s).special_obu_list i []))
  garbage_collection-search s now i m r =
      let (normal, special) = garbage_collection-fresh s now i m r in
      (fresh-Collected now _ _ normal, fresh-Collected now _ _ special)

  -- The list behind a record: its vehicle comes first and has the record as its last one; any other
  -- vehicle is found as before.
  pub record Newest (r : RecordCommonField) (l l' : List ObuObject) : Type 0 where
    pub first : ObuObject
    pub others : List ObuObject
    pub list_is : l' ≡ first ∷ others
    pub name_is : first.obu_name ≡ r.obu_name
    pub record_is : last_record first.record_ring ≡ r.obu_record
    pub others_kept : (m : Bytes) → m ≢ r.obu_name → obu_object_search m l' ≡ obu_object_search m l

  others-found :
      (r : RecordCommonField) (l : List ObuObject) (m : Bytes)
      → length r.obu_name ≤ 10
      → m ≢ r.obu_name
      → obu_object_search m (special_insert f r l) ≡ obu_object_search m l
  others-found r l m k d =
      special_insert-search f r m l k ∙ (elim (Bool-cases (bytes_eq r.obu_name m)) [
        | inl b ↦ absurd (d (sym ((bytes_eq_iff r.obu_name m).0 b)))
        | inr b ↦ rw b refl
      ])

  special_insert-Newest :
      (r : RecordCommonField) (i : ℕ) (l : List ObuObject)
      → length r.obu_name ≤ 10
      → All (InType to_long i) l
      → Newest r l (special_insert f r l)
  unfolding special_insert obu_object_new
  special_insert-Newest r i l k h = elim (Option-cases (obu_object_search r.obu_name l)) [
    | inl e ↦ record {
      first = push_to r.obu_record (obu_object_new f r);
      others = l;
      list_is = rw (special_insert, e) refl;
      name_is = take-all r.obu_name 10 k;
      record_is =
          push-last r.obu_record zero_ring
            record { slots_there = refl; first_in = omega arith; last_in = omega arith };
      others_kept = λ m d. others-found r l m k d;
    }
    | inr (o, e) ↦ record {
      first = predict f r.obu_record o;
      others = (move_to_head-first r.obu_name (predict f r.obu_record o) l).0;
      list_is =
          rw (special_insert, e) (move_to_head-first r.obu_name (predict f r.obu_record o) l).1;
      name_is = search-name r.obu_name l o e;
      record_is =
          keep_record-last r.obu_record o.record_ring
            (search-All (InType to_long i) r.obu_name l o h e).ring_kept;
      others_kept = λ m d. others-found r l m k d;
    }
  ]

  pub special_obu_record_insert-Newest :
      (s : ObuLists) (r : RecordCommonField) (i : ℕ)
      → Reachable to_long f s
      → length r.obu_name ≤ 10
      → type_index r.vehicle_type ≡ some i
      → Newest r
          (get_or s.special_obu_list i [])
          (get_or (special_obu_record_insert f r s.special_obu_list) i [])
  unfolding special_obu_record_insert
  special_obu_record_insert-Newest s r i reach k e =
      let h = Reachable-IsSoundLists to_long f reach in
      let l = get_or s.special_obu_list i [] in
      let inside : i < length s.special_obu_list =
        omega (arith, index_below r.vehicle_type i e, h.types) in
      rw (special_obu_record_insert, e)
        (rw (get_or-set_self s.special_obu_list i (special_insert f r l) [] inside)
          (special_insert-Newest r i l k (h.in_types i).0))
