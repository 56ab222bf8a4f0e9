-- ===== src/ObuRecord/Kept.antt =====
-- A predicate on the vehicles of a list is kept by the operations on it.
use vips_adaptive_traffi.Common.{
  ℕ, ◌≡◌, refl, some, List, [], ◌∷◌, Bytes, bytes_eq, All, Bool-cases, Option-cases, inl, inr,
  arith, some_inj,
}
use vips_adaptive_traffi.ObuRecord.Ring.{RecordCommonField}
use vips_adaptive_traffi.ObuRecord.Lists.{
  ObuObject, SpeedFilter, obu_object_new, obu_object_search, update_found, unlink_found, push_to,
  keep_in, normal_insert, predict, move_to_head, special_insert, is_expired, collect,
}

module _ (P : ObuObject → Type 0) where
  pub search-All :
      (m : Bytes) (l : List ObuObject) (o : ObuObject)
      → All P l
      → obu_object_search m l ≡ some o
      → P o
  unfolding obu_object_search
  search-All m [] o h e = ground arith
  search-All m (x ∷ xs) o h e = elim (Bool-cases (bytes_eq x.obu_name m)) [
    | inl b ↦
        let found : some x ≡ some o = rw (← e) (rw (obu_object_search, b) refl) in
        rw (← some_inj found) h.0
    | inr b ↦ search-All m xs o h.1 (rw (← e) (rw (obu_object_search, b) refl))
  ]

  pub update_found-All :
      (f : ObuObject → ObuObject)
      → ((o : ObuObject) → P o → P (f o))
      → (n : Bytes) (l : List ObuObject) → All P l
      → All P (update_found n f l)
  unfolding update_found
  update_found-All f k n [] h = tt
  update_found-All f k n (x ∷ xs) h = elim (Bool-cases (bytes_eq x.obu_name n)) [
    | inl b ↦ rw b (k x h.0, h.1)
    | inr b ↦ rw b (h.0, update_found-All f k n xs h.1)
  ]

  pub unlink_found-All : (n : Bytes) (l : List ObuObject) → All P l → All P (unlink_found n l)
  unfolding unlink_found
  unlink_found-All n [] h = tt
  unlink_found-All n (x ∷ xs) h = elim (Bool-cases (bytes_eq x.obu_name n)) [
    | inl b ↦ rw b h.1
    | inr b ↦ rw b (h.0, unlink_found-All n xs h.1)
  ]

  move_to_head-All :
      (n : Bytes) (o : ObuObject) (l : List ObuObject) → P o → All P l → All P (move_to_head n o l)
  unfolding move_to_head
  move_to_head-All n o [] k h = (k, tt)
  move_to_head-All n o (x ∷ xs) k h = elim (Bool-cases (bytes_eq x.obu_name n)) [
    | inl b ↦ rw b (k, h.1)
    | inr b ↦ rw b (k, unlink_found-All n (x ∷ xs) h)
  ]

  pub collect-All : (now : ℕ) (l : List ObuObject) → All P l → All P (collect now l)
  unfolding collect
  collect-All now [] h = tt
  collect-All now (x ∷ xs) h = elim (Bool-cases (is_expired now x)) [
    | inl b ↦ rw b (collect-All now xs h.1)
    | inr b ↦ rw b (h.0, collect-All now xs h.1)
  ]

  pub normal_insert-All :
      (f : SpeedFilter) (r : RecordCommonField) (l : List ObuObject)
      → P (obu_object_new f r)
      → ((o : ObuObject) → P o → P (keep_in r.obu_record o))
      → All P l
      → All P (normal_insert f r l)
  unfolding normal_insert
  normal_insert-All f r l new old h = elim (Option-cases (obu_object_search r.obu_name l)) [
    | inl e ↦ rw (normal_insert, e) (old (obu_object_new f r) new, h)
    | inr (o, e) ↦
        rw (normal_insert, e) (update_found-All (keep_in r.obu_record) old r.obu_name l h)
  ]

  pub special_insert-All :
      (f : SpeedFilter) (r : RecordCommonField) (l : List ObuObject)
      → P (push_to r.obu_record (obu_object_new f r))
      → ((o : ObuObject) → P o → P (predict f r.obu_record o))
      → All P l
      → All P (special_insert f r l)
  unfolding special_insert
  special_insert-All f r l new old h = elim (Option-cases (obu_object_search r.obu_name l)) [
    | inl e ↦ rw (special_insert, e) (new, h)
    | inr (o, e) ↦
        rw (special_insert, e)
          (move_to_head-All r.obu_name (predict f r.obu_record o) l
            (old o (search-All r.obu_name l o h e)) h)
  ]
