-- ===== src/ObuRecord/Find.antt =====
-- What a search finds after the operations on a list of vehicles.
use vips_adaptive_traffi.Common.{
  ℕ, zero, suc, ◌≤◌, ◌≡◌, refl, ap, false, Option, some, none, List, [], ◌∷◌, Bytes, bytes_eq,
  bytes_eq_iff, take, length, arith, if◌then◌else◌, Option-cases, inl, inr,
}
use vips_adaptive_traffi.ObuRecord.Ring.{RecordCommonField}
use vips_adaptive_traffi.ObuRecord.Lists.{
  ObuObject, SpeedFilter, obu_object_new, obu_object_search, update_found, unlink_found, push_to,
  keep_in, normal_insert, predict, move_to_head, special_insert,
}

-- A change of the object of a search.
abbrev pub change : (ObuObject → ObuObject) → Option ObuObject → Option ObuObject
change f none = none
change f (some o) = some (f o)

pub search-name :
    (m : Bytes) (l : List ObuObject) (o : ObuObject)
    → obu_object_search m l ≡ some o
    → o.obu_name ≡ m
unfolding obu_object_search
search-name m [] o h = ground arith
search-name m (x ∷ xs) o h = ground (arith, search-name m xs o, bytes_eq_iff x.obu_name m)

pub search-update_found :
    (f : ObuObject → ObuObject)
    → ((o : ObuObject) → (f o).obu_name ≡ o.obu_name)
    → (n m : Bytes) (l : List ObuObject)
    → obu_object_search m (update_found n f l)
      ≡ (if bytes_eq n m then change f (obu_object_search n l) else obu_object_search m l)
unfolding obu_object_search update_found
search-update_found f k n m [] = ground arith
search-update_found f k n m (x ∷ xs) = ground (
  arith,
  k x,
  search-update_found f k n m xs,
  bytes_eq_iff x.obu_name n,
  bytes_eq_iff x.obu_name m,
  bytes_eq_iff n m,
)

search-unlink_found :
    (n m : Bytes) (l : List ObuObject)
    → bytes_eq n m ≡ false
    → obu_object_search m (unlink_found n l) ≡ obu_object_search m l
unfolding obu_object_search unlink_found
search-unlink_found n m [] h = refl
search-unlink_found n m (x ∷ xs) h = ground (
  arith,
  search-unlink_found n m xs h,
  bytes_eq_iff x.obu_name n,
  bytes_eq_iff x.obu_name m,
  bytes_eq_iff n m,
)

search-move_to_head :
    (n m : Bytes) (o : ObuObject) (l : List ObuObject)
    → o.obu_name ≡ n
    → obu_object_search m (move_to_head n o l)
      ≡ (if bytes_eq n m then some o else obu_object_search m l)
unfolding obu_object_search unlink_found move_to_head
search-move_to_head n m o [] h = rw h refl
search-move_to_head n m o (x ∷ xs) h = ground (
  arith,
  search-unlink_found n m xs,
  bytes_eq_iff o.obu_name m,
  bytes_eq_iff x.obu_name n,
  bytes_eq_iff x.obu_name m,
  bytes_eq_iff n m,
)

-- What a record makes of the vehicle of its name, in a list of its type.
abbrev pub special_next : SpeedFilter → RecordCommonField → Option ObuObject → ObuObject
special_next f r none = push_to r.obu_record (obu_object_new f r)
special_next f r (some o) = predict f r.obu_record o

abbrev pub normal_next : SpeedFilter → RecordCommonField → Option ObuObject → ObuObject
normal_next f r none = keep_in r.obu_record (obu_object_new f r)
normal_next f r (some o) = keep_in r.obu_record o

pub take-all : (xs : Bytes) (n : ℕ) → length xs ≤ n → take n xs ≡ xs
take-all [] zero h = refl
take-all (x ∷ xs) zero h = absurd (omega arith)
take-all [] (suc n) h = refl
take-all (x ∷ xs) (suc n) h = ap (λ r. x ∷ r) (take-all xs n (omega arith))

pub special_insert-search :
    (f : SpeedFilter) (r : RecordCommonField) (m : Bytes) (l : List ObuObject)
    → length r.obu_name ≤ 10
    → obu_object_search m (special_insert f r l) ≡ (
        if bytes_eq r.obu_name m
        then some (special_next f r (obu_object_search r.obu_name l))
        else obu_object_search m l)
unfolding special_insert obu_object_new obu_object_search
special_insert-search f r m l h = elim (Option-cases (obu_object_search r.obu_name l)) [
  | inl e ↦ rw (special_insert, e) (rw (take-all r.obu_name 10 h) refl)
  | inr (o, e) ↦
      rw (special_insert, e)
        (search-move_to_head r.obu_name m (predict f r.obu_record o) l
          (search-name r.obu_name l o e))
]

pub normal_insert-search :
    (f : SpeedFilter) (r : RecordCommonField) (m : Bytes) (l : List ObuObject)
    → length r.obu_name ≤ 10
    → obu_object_search m (normal_insert f r l) ≡ (
        if bytes_eq r.obu_name m
        then some (normal_next f r (obu_object_search r.obu_name l))
        else obu_object_search m l)
unfolding normal_insert obu_object_new obu_object_search
normal_insert-search f r m l h = elim (Option-cases (obu_object_search r.obu_name l)) [
  | inl e ↦ rw (normal_insert, e) (rw (take-all r.obu_name 10 h) refl)
  | inr (o, e) ↦
      rw (normal_insert, e, search-update_found (keep_in r.obu_record) (λ o. refl) r.obu_name m l)
        (rw e refl)
]
