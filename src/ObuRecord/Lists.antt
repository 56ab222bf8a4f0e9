-- ===== src/ObuRecord/Lists.antt =====
-- src/OBU_record_processing.c: the lists of vehicles. `normal_OBU_list` has a bucket per hash value,
-- `special_OBU_list` a list per vehicle type. A circular list is the list of its objects from
-- `next` of its head on; an object that an application points to is found again by its name.
-- Allocations succeed; the private space of the applications in an object is left out.
use vips_adaptive_traffi.Common.{
  ℕ, ◌+◌, ◌*◌, ◌%◌, ◌^◌, Bool, true, false, Option, some, none, List, [], ◌∷◌, Bytes, bytes_eq,
  replicate, map, take, get_or, set, ltb, if◌then◌else◌,
}
use vips_adaptive_traffi.Signal.{
  VehicleType, vehicle_normal, vehicle_ambulance, vehicle_bus, vehicle_fire_truck,
  vehicle_police_car,
}
use vips_adaptive_traffi.ObuRecord.Ring.{
  ObuRecord, RecordCommonField, RecordRing, zero_ring, obu_record_ring_push, keep_record,
  last_record,
}

abbrev pub hash_table_size : ℕ
hash_table_size = 10

abbrev pub vehicle_type_number : ℕ
vehicle_type_number = 4

abbrev pub obu_object_expire_time : ℕ
obu_object_expire_time = 60

abbrev pub obu_name_max_len : ℕ
obu_name_max_len = 10

-- `OBU_object_status`.
pub data ObjectStatus : Type 0 where
  obu_object_unknown obu_object_processing obu_object_granted obu_object_rejected : ObjectStatus

-- `OBU_object_t`.
pub record ObuObject : Type 0 where
  pub obu_name : Bytes
  pub vehicle_type : VehicleType
  pub status : ObjectStatus
  pub prediction_speed : ℕ
  pub record_ring : RecordRing

-- The float arithmetic of the predicted speed: the conversion of a speed, and the filter's next
-- value for the last one and a speed.
pub record SpeedFilter : Type 0 where
  pub to_float : ℕ → ℕ
  pub kalman : ℕ → ℕ → ℕ

-- The hash: `to_long` is the value of a `char` as an `unsigned long`.
unfoldable pub djb2_loop : (ℕ → ℕ) → ℕ → Bytes → ℕ
djb2_loop to_long hash [] = hash
djb2_loop to_long hash (c ∷ str) = djb2_loop to_long (((hash * 32 + hash) + to_long c) % 2 ^ 64) str

unfoldable pub djb2_hash : (ℕ → ℕ) → Bytes → ℕ
djb2_hash to_long str = djb2_loop to_long 5381 str % hash_table_size

unfoldable pub obu_object_new : SpeedFilter → RecordCommonField → ObuObject
obu_object_new f r = record {
  obu_name = take obu_name_max_len r.obu_name;
  vehicle_type = r.vehicle_type;
  status = obu_object_processing;
  prediction_speed = f.to_float r.obu_record.speed;
  record_ring = zero_ring;
}

-- `strcmp` finds the first object with the name.
unfoldable pub obu_object_search : Bytes → List ObuObject → Option ObuObject
obu_object_search str [] = none
obu_object_search str (o ∷ os) =
    if bytes_eq o.obu_name str then some o else obu_object_search str os

-- A change of the object that the search finds.
unfoldable pub update_found : Bytes → (ObuObject → ObuObject) → List ObuObject → List ObuObject
update_found str f [] = []
update_found str f (o ∷ os) =
    let rest = update_found str f os in if bytes_eq o.obu_name str then f o ∷ os else o ∷ rest

-- The links around the object that the search finds are joined.
unfoldable pub unlink_found : Bytes → List ObuObject → List ObuObject
unlink_found str [] = []
unlink_found str (o ∷ os) =
    let rest = unlink_found str os in if bytes_eq o.obu_name str then os else o ∷ rest

-- The object with its new record.
abbrev pub push_to : ObuRecord → ObuObject → ObuObject
push_to x o = record o { record_ring = obu_record_ring_push x o.record_ring }

abbrev pub keep_in : ObuRecord → ObuObject → ObuObject
keep_in x o = record o { record_ring = keep_record x o.record_ring }

-- An index of `special_OBU_list`; -1 has none.
unfoldable pub type_index : VehicleType → Option ℕ
type_index vehicle_normal = none
type_index vehicle_ambulance = some 0
type_index vehicle_bus = some 1
type_index vehicle_fire_truck = some 2
type_index vehicle_police_car = some 3

-- The insertion into one bucket of the hash table: a new object comes first, and keeps its record
-- through the same test for a full ring as one that exists.
unfoldable pub normal_insert : SpeedFilter → RecordCommonField → List ObuObject → List ObuObject
normal_insert f r l = elim (obu_object_search r.obu_name l) [
  | none ↦ keep_in r.obu_record (obu_object_new f r) ∷ l
  | some o ↦ update_found r.obu_name (keep_in r.obu_record) l
]

unfoldable pub is_normal : VehicleType → Bool
is_normal vehicle_normal = true
is_normal _ = false

-- A change of one list of the table.
abbrev pub update_list :
    ℕ → (List ObuObject → List ObuObject) → List (List ObuObject) → List (List ObuObject)
update_list i f t = set t i (f (get_or t i []))

unfoldable pub normal_obu_record_insert :
    (ℕ → ℕ) → SpeedFilter → RecordCommonField → List (List ObuObject) → List (List ObuObject)
normal_obu_record_insert to_long f r t =
    if is_normal r.vehicle_type
    then update_list (djb2_hash to_long r.obu_name) (normal_insert f r) t
    else t

-- An object that exists: its record, and the prediction of its speed.
abbrev pub predict : SpeedFilter → ObuRecord → ObuObject → ObuObject
predict f x o = record o {
  record_ring = keep_record x o.record_ring;
  prediction_speed = f.kalman o.prediction_speed x.speed;
}

-- The object goes to the head, unless it stands there.
unfoldable pub move_to_head : Bytes → ObuObject → List ObuObject → List ObuObject
move_to_head str o [] = o ∷ []
move_to_head str o (x ∷ xs) =
    let rest = unlink_found str (x ∷ xs) in if bytes_eq x.obu_name str then o ∷ xs else o ∷ rest

-- The insertion into the list of a type.
unfoldable pub special_insert : SpeedFilter → RecordCommonField → List ObuObject → List ObuObject
special_insert f r l = elim (obu_object_search r.obu_name l) [
  | none ↦ push_to r.obu_record (obu_object_new f r) ∷ l
  | some o ↦ move_to_head r.obu_name (predict f r.obu_record o) l
]

unfoldable pub special_obu_record_insert :
    SpeedFilter → RecordCommonField → List (List ObuObject) → List (List ObuObject)
special_obu_record_insert f r t = elim (type_index r.vehicle_type) [
  | none ↦ t
  | some i ↦ update_list i (special_insert f r) t
]

-- The status of a vehicle, as its list has it.
abbrev pub status_of : Option ObuObject → ObjectStatus
status_of none = obu_object_unknown
status_of (some o) = o.status

-- For `VEHICLE_NORMAL` the code reads outside the array; here there is no list then.
unfoldable pub special_obu_list_search_status :
    VehicleType → Bytes → List (List ObuObject) → ObjectStatus
special_obu_list_search_status type name t = elim (type_index type) [
  | none ↦ obu_object_unknown
  | some i ↦ status_of (obu_object_search name (get_or t i []))
]

unfoldable pub may_be_set : ObjectStatus → Bool
may_be_set obu_object_granted = true
may_be_set obu_object_rejected = true
may_be_set _ = false

-- The result is true for 1 and false for -1.
unfoldable pub special_obu_list_update_status :
    Bytes → VehicleType → ObjectStatus → List (List ObuObject) → Bool × List (List ObuObject)
special_obu_list_update_status name type status t = elim (type_index type) [
  | none ↦ (false, t)
  | some i ↦ elim (obu_object_search name (get_or t i [])) [
    | none ↦ (false, t)
    | some o ↦
        if may_be_set status
        then (
          true,
          update_list i (update_found name (λ (x : ObuObject). record x { status = status })) t,
        )
        else (false, t)
  ]
]

-- `time_second` lies more than a minute back.
abbrev pub is_expired : ℕ → ObuObject → Bool
is_expired now o = ltb ((last_record o.record_ring).time_second + obu_object_expire_time) now

-- The loop of the garbage collection over one list.
unfoldable pub collect : ℕ → List ObuObject → List ObuObject
collect now [] = []
collect now (o ∷ os) = let rest = collect now os in if is_expired now o then rest else o ∷ rest

-- Both arrays of lists.
pub record ObuLists : Type 0 where
  pub normal_obu_list : List (List ObuObject)
  pub special_obu_list : List (List ObuObject)

unfoldable pub obu_object_garbage_collection_init : ObuLists
obu_object_garbage_collection_init = record {
  normal_obu_list = replicate hash_table_size [];
  special_obu_list = replicate vehicle_type_number [];
}

unfoldable pub obu_object_garbage_collection : ℕ → ObuLists → ObuLists
obu_object_garbage_collection now s = record {
  normal_obu_list = map (collect now) s.normal_obu_list;
  special_obu_list = map (collect now) s.special_obu_list;
}
