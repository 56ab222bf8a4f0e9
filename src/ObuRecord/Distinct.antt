-- ===== src/ObuRecord/Distinct.antt =====
-- Lists in which every vehicle stands once, and what the garbage collection leaves of them.
use vips_adaptive_traffi.Common.{
  ℕ, ◌≤◌, ◌≡◌, refl, sym, ◌∙◌, Option, some, none, List, [], ◌∷◌, Bytes, bytes_eq, bytes_eq_iff,
  length, arith, if◌then◌else◌, Bool-cases, Option-cases, inl, inr,
}
use vips_adaptive_traffi.ObuRecord.Ring.{RecordCommonField}
use vips_adaptive_traffi.ObuRecord.Lists.{
  ObuObject, SpeedFilter, obu_object_new, obu_object_search, update_found, unlink_found, keep_in,
  normal_insert, predict, move_to_head, special_insert, is_expired, collect,
}
use vips_adaptive_traffi.ObuRecord.Find.{change, search-name, search-update_found, take-all}

unfoldable pub Distinct : List ObuObject → Type 0
Distinct [] = Unit
Distinct (o ∷ os) = (obu_object_search o.obu_name os ≡ none) × Distinct os

change-none : (f : ObuObject → ObuObject) (o : Option ObuObject) → o ≡ none → change f o ≡ none
change-none f none h = refl
change-none f (some x) h = ground arith

update_found-none :
    (f : ObuObject → ObuObject)
    → ((o : ObuObject) → (f o).obu_name ≡ o.obu_name)
    → (n m : Bytes) (l : List ObuObject) → obu_object_search m l ≡ none
    → obu_object_search m (update_found n f l) ≡ none
update_found-none f k n m l h =
    rw (search-update_found f k n m l) (elim (Bool-cases (bytes_eq n m)) [
      | inl e ↦
          let same : obu_object_search n l ≡ none = rw ((bytes_eq_iff n m).0 e) h in
          rw (e, same) refl
      | inr e ↦ rw e h
    ])

pub update_found-Distinct :
    (f : ObuObject → ObuObject)
    → ((o : ObuObject) → (f o).obu_name ≡ o.obu_name)
    → (n : Bytes) (l : List ObuObject) → Distinct l
    → Distinct (update_found n f l)
unfolding update_found Distinct
update_found-Distinct f k n [] h = tt
update_found-Distinct f k n (o ∷ os) h = elim (Bool-cases (bytes_eq o.obu_name n)) [
  | inl e ↦ rw e (rw (k o) h.0, h.1)
  | inr e ↦ rw e (update_found-none f k n o.obu_name os h.0, update_found-Distinct f k n os h.1)
]

unlink_found-none_other :
    (n m : Bytes) (l : List ObuObject)
    → obu_object_search m l ≡ none
    → obu_object_search m (unlink_found n l) ≡ none
unfolding obu_object_search unlink_found
unlink_found-none_other n m [] h = refl
unlink_found-none_other n m (x ∷ xs) h = ground (arith, unlink_found-none_other n m xs)

pub unlink_found-none :
    (n : Bytes) (l : List ObuObject) → Distinct l → obu_object_search n (unlink_found n l) ≡ none
unfolding obu_object_search unlink_found Distinct
unlink_found-none n [] h = refl
unlink_found-none n (x ∷ xs) h =
    ground (arith, unlink_found-none n xs h.1, h.0, bytes_eq_iff x.obu_name n)

pub unlink_found-Distinct :
    (n : Bytes) (l : List ObuObject) → Distinct l → Distinct (unlink_found n l)
unfolding unlink_found Distinct
unlink_found-Distinct n [] h = tt
unlink_found-Distinct n (o ∷ os) h = elim (Bool-cases (bytes_eq o.obu_name n)) [
  | inl e ↦ rw e h.1
  | inr e ↦ rw e (unlink_found-none_other n o.obu_name os h.0, unlink_found-Distinct n os h.1)
]

move_to_head-Distinct :
    (n : Bytes) (o : ObuObject) (l : List ObuObject)
    → o.obu_name ≡ n
    → Distinct l
    → Distinct (move_to_head n o l)
unfolding move_to_head Distinct obu_object_search
move_to_head-Distinct n o [] e h = (refl, tt)
move_to_head-Distinct n o (x ∷ xs) e h = elim (Bool-cases (bytes_eq x.obu_name n)) [
  | inl b ↦ rw b (rw (e ∙ sym ((bytes_eq_iff x.obu_name n).0 b)) h.0, h.1)
  | inr b ↦ rw b (rw e (unlink_found-none n (x ∷ xs) h), unlink_found-Distinct n (x ∷ xs) h)
]

pub special_insert-Distinct :
    (f : SpeedFilter) (r : RecordCommonField) (l : List ObuObject)
    → length r.obu_name ≤ 10
    → Distinct l
    → Distinct (special_insert f r l)
unfolding special_insert obu_object_new Distinct
special_insert-Distinct f r l k h = elim (Option-cases (obu_object_search r.obu_name l)) [
  | inl e ↦ rw (special_insert, e) (rw (take-all r.obu_name 10 k) e, h)
  | inr (o, e) ↦
      rw (special_insert, e)
        (move_to_head-Distinct r.obu_name (predict f r.obu_record o) l
          (search-name r.obu_name l o e) h)
]

pub normal_insert-Distinct :
    (f : SpeedFilter) (r : RecordCommonField) (l : List ObuObject)
    → length r.obu_name ≤ 10
    → Distinct l
    → Distinct (normal_insert f r l)
unfolding normal_insert obu_object_new Distinct
normal_insert-Distinct f r l k h = elim (Option-cases (obu_object_search r.obu_name l)) [
  | inl e ↦ rw (normal_insert, e) (rw (take-all r.obu_name 10 k) e, h)
  | inr (o, e) ↦
      rw (normal_insert, e)
        (update_found-Distinct (keep_in r.obu_record) (λ x. refl) r.obu_name l h)
]

-- What the search finds, if it has not expired.
abbrev pub fresh : ℕ → Option ObuObject → Option ObuObject
fresh now none = none
fresh now (some o) = if is_expired now o then none else some o

collect-none :
    (now : ℕ) (m : Bytes) (l : List ObuObject)
    → obu_object_search m l ≡ none
    → obu_object_search m (collect now l) ≡ none
unfolding obu_object_search collect
collect-none now m [] h = refl
collect-none now m (x ∷ xs) h = ground (arith, collect-none now m xs)

pub collect-search :
    (now : ℕ) (m : Bytes) (l : List ObuObject)
    → Distinct l
    → obu_object_search m (collect now l) ≡ fresh now (obu_object_search m l)
unfolding obu_object_search collect Distinct
collect-search now m [] h = refl
collect-search now m (x ∷ xs) h =
    ground
      (arith, collect-search now m xs h.1, collect-none now m xs, h.0, bytes_eq_iff x.obu_name m)

pub collect-Distinct : (now : ℕ) (l : List ObuObject) → Distinct l → Distinct (collect now l)
unfolding collect Distinct
collect-Distinct now [] h = tt
collect-Distinct now (o ∷ os) h = elim (Bool-cases (is_expired now o)) [
  | inl e ↦ rw e (collect-Distinct now os h.1)
  | inr e ↦ rw e (collect-none now o.obu_name os h.0, collect-Distinct now os h.1)
]
