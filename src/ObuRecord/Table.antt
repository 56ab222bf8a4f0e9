-- ===== src/ObuRecord/Table.antt =====
-- The arrays of src/OBU_record_processing.c as maps from names to vehicles.
use vips_adaptive_traffi.Common.{
  ℕ, zero, suc, ◌+◌, ◌≤◌, ◌<◌, ◌≡◌, ◌≢◌, refl, sym, ap, ◌∙◌, true, some, none, List, [], ◌∷◌, ◌++◌,
  Bytes, bytes_eq, bytes_eq_iff, All, length, get_or, arith, if◌then◌else◌, ◌==◌, Bool-cases, inl,
  inr, get_or-set_self, get_or-set_ne,
}
use vips_adaptive_traffi.ObuRecord.Ring.{RecordCommonField}
use vips_adaptive_traffi.ObuRecord.Lists.{
  ObuObject, ObuLists, SpeedFilter, djb2_hash, is_normal, normal_insert, obu_object_search,
  normal_obu_record_insert,
}
use vips_adaptive_traffi.ObuRecord.Find.{normal_next, normal_insert-search}
use vips_adaptive_traffi.ObuRecord.Reach.{
  IsSoundLists, step_normal, Reachable, next, Reachable-IsSoundLists,
}
use vips_adaptive_traffi.ObuRecord.Rows.{InBucket}

-- All vehicles of a table in one list.
pub concat : List (List ObuObject) → List ObuObject
concat [] = []
concat (l ∷ t) = l ++ concat t

search-append :
    (m : Bytes) (l r : List ObuObject)
    → obu_object_search m l ≡ none
    → obu_object_search m (l ++ r) ≡ obu_object_search m r
unfolding obu_object_search
search-append m [] r h = refl
search-append m (x ∷ xs) r h = ground (arith, search-append m xs r)

search-append_left :
    (m : Bytes) (l r : List ObuObject)
    → obu_object_search m r ≡ none
    → obu_object_search m (l ++ r) ≡ obu_object_search m l
unfolding obu_object_search
search-append_left m [] r h = h
search-append_left m (x ∷ xs) r h = ground (arith, search-append_left m xs r h)

module _ (g : Bytes → ℕ) where
  abbrev At : ℕ → ObuObject → Type 0
  At i o = g o.obu_name ≡ i

  abbrev InBuckets : ℕ → List (List ObuObject) → Type 0
  InBuckets c t = (i : ℕ) → All (At (i + c)) (get_or t i [])

  tail-InBuckets :
      (c : ℕ) (l : List ObuObject) (t : List (List ObuObject))
      → InBuckets c (l ∷ t)
      → InBuckets (suc c) t
  tail-InBuckets c l t h i = let e : suc i + c ≡ i + suc c = omega arith in rw (← e) (h (suc i))

  other_bucket :
      (m : Bytes) (i : ℕ) (l : List ObuObject)
      → All (At i) l
      → g m ≢ i
      → obu_object_search m l ≡ none
  unfolding obu_object_search
  other_bucket m i [] h k = refl
  other_bucket m i (x ∷ xs) h k = elim (Bool-cases (bytes_eq x.obu_name m)) [
    | inl b ↦ absurd (k (ap g (sym ((bytes_eq_iff x.obu_name m).0 b)) ∙ h.0))
    | inr b ↦ rw (obu_object_search, b) (other_bucket m i xs h.1 k)
  ]

  concat-before :
      (m : Bytes) (c : ℕ) (t : List (List ObuObject))
      → InBuckets c t
      → g m < c
      → obu_object_search m (concat t) ≡ none
  unfolding concat obu_object_search
  concat-before m c [] h k = refl
  concat-before m c (l ∷ t) h k =
      let here = other_bucket m (0 + c) l (h 0) (λ e. omega (arith, e, k)) in
      search-append m l (concat t) here
      ∙ concat-before m (suc c) t (tail-InBuckets c l t h) (omega (arith, k))

  concat-inside :
      (m : Bytes) (c h : ℕ) (t : List (List ObuObject))
      → InBuckets c t
      → g m ≡ h + c
      → obu_object_search m (concat t) ≡ obu_object_search m (get_or t h [])
  unfolding concat obu_object_search
  concat-inside m c h [] k e = refl
  concat-inside m c zero (l ∷ t) k e =
      search-append_left m l (concat t)
        (concat-before m (suc c) t (tail-InBuckets c l t k) (omega (arith, e)))
  concat-inside m c (suc h) (l ∷ t) k e =
      let here = other_bucket m (0 + c) l (k 0) (λ d. omega (arith, e, d)) in
      search-append m l (concat t) here
      ∙ concat-inside m (suc c) h t (tail-InBuckets c l t k) (omega (arith, e))

All-map :
    {P Q : ObuObject → Type 0}
    → ((o : ObuObject) → P o → Q o)
    → (l : List ObuObject) → All P l
    → All Q l
All-map f [] h = tt
All-map f (x ∷ xs) h = (f x h.0, All-map f xs h.1)

module _ (to_long : ℕ → ℕ) where
  IsSoundLists-InBuckets :
      (s : ObuLists) → IsSoundLists to_long s → InBuckets (djb2_hash to_long) 0 s.normal_obu_list
  IsSoundLists-InBuckets s h i =
      let e : i ≡ i + 0 = omega arith in
      rw (← e) (
        All-map (λ (o : ObuObject) (b : InBucket to_long i o). b.hash_is)
          (get_or s.normal_obu_list i []) (h.in_buckets i).0)

  -- In a sound table the search in the bucket of the hash is that in all vehicles.
  pub normal_search-concat :
      (s : ObuLists) (m : Bytes)
      → IsSoundLists to_long s
      → obu_object_search m (concat s.normal_obu_list)
        ≡ obu_object_search m (get_or s.normal_obu_list (djb2_hash to_long m) [])
  normal_search-concat s m h =
      concat-inside (djb2_hash to_long) m 0 (djb2_hash to_long m) s.normal_obu_list
        (IsSoundLists-InBuckets s h) (omega arith)

  hash_below : (m : Bytes) → djb2_hash to_long m < 10
  unfolding djb2_hash
  hash_below m = omega arith

  bucket_search :
      (f : SpeedFilter) (r : RecordCommonField) (m : Bytes) (t : List (List ObuObject))
      → length t ≡ 10
      → length r.obu_name ≤ 10
      → is_normal r.vehicle_type ≡ true
      → obu_object_search m
          (get_or (normal_obu_record_insert to_long f r t) (djb2_hash to_long m) [])
        ≡ (if bytes_eq r.obu_name m
            then some (
                normal_next f r
                  (obu_object_search r.obu_name (get_or t (djb2_hash to_long r.obu_name) [])))
            else obu_object_search m (get_or t (djb2_hash to_long m) []))
  unfolding normal_obu_record_insert
  bucket_search f r m t n k e =
      let i = djb2_hash to_long r.obu_name in
      let inside : i < length t = omega (arith, hash_below r.obu_name, n) in
      let found = normal_insert-search f r m (get_or t i []) k in
      rw (normal_obu_record_insert, e)
        (elim (Bool-cases (i == djb2_hash to_long m)) [
          | inl same ↦
              let same' : i ≡ djb2_hash to_long m = ground (arith, same) in
              rw (← same')
                (rw (get_or-set_self t i (normal_insert f r (get_or t i [])) [] inside) found)
          | inr other ↦
              let differ : i ≢ djb2_hash to_long m = λ d. ground (arith, other) in
              rw
                (get_or-set_ne t i (djb2_hash to_long m) (normal_insert f r (get_or t i [])) []
                  differ)
                (elim (Bool-cases (bytes_eq r.obu_name m)) [
                  | inl b ↦
                      absurd (differ (ap (djb2_hash to_long) ((bytes_eq_iff r.obu_name m).0 b)))
                  | inr b ↦ rw b refl
                ])
        ])

  -- The hash table is one map from names to vehicles, for every hash of the characters: in every
  -- reachable state a normal vehicle's record makes the vehicle of its name, searched for among all
  -- vehicles, the next one that the record asks for, and any other name finds what it found before.
  pub normal_obu_record_insert-search :
      (f : SpeedFilter) (s : ObuLists) (r : RecordCommonField) (m : Bytes)
      → Reachable to_long f s
      → length r.obu_name ≤ 10
      → is_normal r.vehicle_type ≡ true
      → obu_object_search m (concat (normal_obu_record_insert to_long f r s.normal_obu_list)) ≡ (
          if bytes_eq r.obu_name m
          then some (normal_next f r (obu_object_search r.obu_name (concat s.normal_obu_list)))
          else obu_object_search m (concat s.normal_obu_list))
  normal_obu_record_insert-search f s r m reach k e =
      let h = Reachable-IsSoundLists to_long f reach in
      let h' = Reachable-IsSoundLists to_long f (next reach (step_normal r k)) in
      rw
        (
          normal_search-concat s m h,
          normal_search-concat s r.obu_name h,
          normal_search-concat _ m h',
        )
        (bucket_search f r m s.normal_obu_list h.buckets k e)
