-- ===== src/ObuRecord/Identity.antt =====
-- Which vehicle a message is taken for (src/OBU_record_processing.c, `V2R_msgf2OBU_record`).
use vips_adaptive_traffi.Common.{
  ℕ, zero, suc, ◌≤◌, ◌≡◌, refl, false, some, none, [], ◌∷◌, ◌++◌, Bytes, take, length, ◌==◌, arith,
  some_inj, Bool-cases, Option-cases, inl, inr, length-append,
}
use vips_adaptive_traffi.Signal.{
  VehicleType, vehicle_ambulance, vehicle_bus, vehicle_fire_truck, vehicle_police_car,
}
use vips_adaptive_traffi.ObuRecord.Ring.{RecordCommonField}
use vips_adaptive_traffi.ObuRecord.Lists.{is_normal}
use vips_adaptive_traffi.ObuRecord.Message.{
  Platform, Srm, VehicleId, Role, role_other, role_ambulance, role_fire, role_police, Message,
  basic_safety_message, signal_request_message, other_message, c_string, id_bytes, bsm_identity,
  srm_identity, bsm_record, srm_record, bsm_is_complete, srm_is_complete, v2r_msgf2obu_record,
  bus_prefix, amb_prefix, fir_prefix, pol_prefix,
}

c_string-take : (n : ℕ) (xs : Bytes) → length (c_string (take n xs)) ≤ n
unfolding c_string
c_string-take zero xs = omega arith
c_string-take (suc n) [] = omega arith
c_string-take (suc n) (x ∷ xs) = ground (arith, c_string-take n xs)

-- A special vehicle under a name of at most eight characters.
pub record Named (name : Bytes) (type : VehicleType) : Type 0 where
  pub short : length name ≤ 8
  pub special : is_normal type ≡ false

prefixed-Named :
    (prefix id : Bytes) (type : VehicleType)
    → length prefix ≡ 4
    → is_normal type ≡ false
    → Named (prefix ++ c_string (take 4 id)) type
prefixed-Named prefix id type h k = record {
  short = omega (arith, length-append prefix (c_string (take 4 id)), c_string-take 4 id, h);
  special = k;
}

bsm_identity-Named :
    (n : ℕ) (id : Bytes) (type : VehicleType)
    → is_normal type ≡ false
    → Named (bsm_identity n id type).0 (bsm_identity n id type).1
unfolding bsm_identity is_normal
bsm_identity-Named n id type h = elim (Bool-cases (n == 50)) [
  | inl e ↦ rw e (prefixed-Named bus_prefix id vehicle_bus refl refl)
  | inr e ↦ elim (Bool-cases (n == 60)) [
    | inl e' ↦ rw (e, e') (prefixed-Named amb_prefix id vehicle_ambulance refl refl)
    | inr e' ↦ elim (Bool-cases (n == 63)) [
      | inl x ↦ rw (e, e', x) (prefixed-Named fir_prefix id vehicle_fire_truck refl refl)
      | inr x ↦ elim (Bool-cases (n == 66)) [
        | inl y ↦ rw (e, e', x, y) (prefixed-Named pol_prefix id vehicle_police_car refl refl)
        | inr y ↦ rw (e, e', x, y) record { short = omega arith; special = h }
      ]
    ]
  ]
]

srm_identity-Named :
    (role : Role) (id : VehicleId) (who : Bytes × VehicleType)
    → srm_identity role id ≡ some who
    → Named who.0 who.1
unfolding srm_identity is_normal
srm_identity-Named role_ambulance id who h =
    rw (← some_inj h) (prefixed-Named amb_prefix (id_bytes id) vehicle_ambulance refl refl)
srm_identity-Named role_fire id who h =
    rw (← some_inj h) (prefixed-Named fir_prefix (id_bytes id) vehicle_fire_truck refl refl)
srm_identity-Named role_police id who h =
    rw (← some_inj h) (prefixed-Named pol_prefix (id_bytes id) vehicle_police_car refl refl)
srm_identity-Named role_other id who h = ground arith

srm_record-kept :
    (p : Platform) (now : ℕ) (m : Srm) (r r' : RecordCommonField) (who : Bytes × VehicleType)
    → srm_record p now m r who ≡ some r'
    → (r'.obu_name ≡ who.0) × (r'.vehicle_type ≡ who.1)
unfolding srm_record
srm_record-kept p now m r r' who h = ground arith

pub v2r-Named :
    (p : Platform) (now : ℕ) (msg : Message) (r r' : RecordCommonField)
    → is_normal r.vehicle_type ≡ false
    → v2r_msgf2obu_record p now msg r ≡ some r'
    → Named r'.obu_name r'.vehicle_type
unfolding v2r_msgf2obu_record bsm_record
v2r-Named p now (basic_safety_message m) r r' k h = elim (Bool-cases (bsm_is_complete m)) [
  | inl e ↦
      let is : some (bsm_record p now m r) ≡ some r' =
        rw (← h) (rw (v2r_msgf2obu_record, e) refl) in
      rw (← some_inj is) (bsm_identity-Named m.classification m.id r.vehicle_type k)
  | inr e ↦
      let is : none ≡ some r' = rw (← h) (rw (v2r_msgf2obu_record, e) refl) in ground (arith, is)
]
v2r-Named p now (signal_request_message m) r r' k h = elim (Bool-cases (srm_is_complete m)) [
  | inr e ↦
      let is : none ≡ some r' = rw (← h) (rw (v2r_msgf2obu_record, e) refl) in ground (arith, is)
  | inl e ↦ elim (Option-cases (srm_identity m.role m.id)) [
    | inl n ↦
        let is : none ≡ some r' = rw (← h) (rw (v2r_msgf2obu_record, e, n) refl) in
        ground (arith, is)
    | inr (who, n) ↦
        let is : srm_record p now m r who ≡ some r' =
          rw (← h) (rw (v2r_msgf2obu_record, e, n) refl) in
        let kept = srm_record-kept p now m r r' who is in
        rw (kept.0, kept.1) (srm_identity-Named m.role m.id who n)
  ]
]
v2r-Named p now other_message r r' k h = ground arith
