-- ===== src/ObuRecord/Receive.antt =====
-- What a received message does to the lists of vehicles (src/com_packet_processing.c,
-- `OBU_packet_rx_event_handler`).
use vips_adaptive_traffi.Common.{
  ℕ, ◌+◌, ◌/◌, ◌%◌, ◌≤◌, ◌<◌, ◌≡◌, ◌≢◌, refl, sym, ap, ◌∙◌, true, false, some, none, List, [], ◌∷◌,
  Bytes, bytes_eq_refl, get_or, lt→ltb, arith, some_inj, Option-cases, inl, inr,
}
use vips_adaptive_traffi.Signal.{
  VehicleType, vehicle_normal, vehicle_ambulance, vehicle_bus, vehicle_fire_truck,
  vehicle_police_car,
}
use vips_adaptive_traffi.ObuRecord.Ring.{RecordCommonField, last_record}
use vips_adaptive_traffi.ObuRecord.Lists.{
  ObuLists, ObuObject, SpeedFilter, is_normal, is_expired, type_index, special_obu_record_insert,
  obu_object_search, obu_object_garbage_collection,
}
use vips_adaptive_traffi.ObuRecord.Reach.{Step, step_special, Reachable, next}
use vips_adaptive_traffi.ObuRecord.Newest.{
  Newest, special_obu_record_insert-Newest, garbage_collection-fresh,
}
use vips_adaptive_traffi.ObuRecord.Message.{
  Platform, Bsm, Message, basic_safety_message, bsm_identity, bsm_record, bsm_second,
  bsm_is_complete, v2r_msgf2obu_record, zero_common, insert_record, obu_packet_rx,
}
use vips_adaptive_traffi.ObuRecord.Identity.{Named, v2r-Named}

other_class :
    (n : ℕ) (id : Bytes) (type : VehicleType)
    → n ≢ 50
    → n ≢ 60
    → n ≢ 63
    → n ≢ 66
    → bsm_identity n id type ≡ ([], type)
unfolding bsm_identity
other_class n id type a b c d = ground arith

has_index : (v : VehicleType) → is_normal v ≡ false → (i : ℕ) × (type_index v ≡ some i)
unfolding is_normal type_index
has_index vehicle_normal h = ground arith
has_index vehicle_ambulance h = (0, refl)
has_index vehicle_bus h = (1, refl)
has_index vehicle_fire_truck h = (2, refl)
has_index vehicle_police_car h = (3, refl)

ahead_second :
    (now sec_mark : ℕ)
    → 120 ≤ now
    → sec_mark / 1000 + 30 < now % 60
    → bsm_second now sec_mark + 60 < now
unfolding bsm_second
ahead_second now sec_mark late ahead = ground arith

module _ (to_long : ℕ → ℕ) (f : SpeedFilter) (p : Platform) where
  insert-special :
      (r : RecordCommonField) (s : ObuLists)
      → is_normal r.vehicle_type ≡ false
      → insert_record to_long f r s
        ≡ record s { special_obu_list = special_obu_record_insert f r s.special_obu_list }
  unfolding insert_record
  insert-special r s h = rw (insert_record, h) refl

  obu_packet_rx_inv :
      (now : ℕ) (msg : Message) (s s' : ObuLists)
      → obu_packet_rx to_long f p now msg s ≡ some s'
      → (r : RecordCommonField) × (v2r_msgf2obu_record p now msg zero_common ≡ some r)
        × Named r.obu_name r.vehicle_type
        × (s' ≡ record s { special_obu_list = special_obu_record_insert f r s.special_obu_list })
  unfolding obu_packet_rx is_normal
  obu_packet_rx_inv now msg s s' h =
      elim (Option-cases (v2r_msgf2obu_record p now msg zero_common)) [
        | inl e ↦
            let is : none ≡ some s' = rw (← h) (rw (obu_packet_rx, e) refl) in
            absurd (ground (arith, is))
        | inr (r, e) ↦
            let is : some (insert_record to_long f r s) ≡ some s' =
              rw (← h) (rw (obu_packet_rx, e) refl) in
            let named = v2r-Named p now msg zero_common r refl e in
            (r, e, named, sym (some_inj is) ∙ insert-special r s named.special)
      ]

  rx-Step :
      (now : ℕ) (msg : Message) (s s' : ObuLists)
      → obu_packet_rx to_long f p now msg s ≡ some s'
      → Step to_long f s s'
  rx-Step now msg s s' h =
      let (r, e, named, is) = obu_packet_rx_inv now msg s s' h in
      rw is (step_special r (omega (arith, named.short)))

  -- Whatever a message is, if it is taken in, it is one step of the program, and it is the record of
  -- a special vehicle, which in every reachable state is then the first of its type's list, with the
  -- record as its last one, while every other vehicle of the list is found as before; the hash table
  -- of normal vehicles is never used.
  pub obu_packet_rx-Newest :
      (now : ℕ) (msg : Message) (s s' : ObuLists)
      → Reachable to_long f s
      → obu_packet_rx to_long f p now msg s ≡ some s'
      → Step to_long f s s'
        × (s'.normal_obu_list ≡ s.normal_obu_list)
        × (r : RecordCommonField) × (i : ℕ) × (v2r_msgf2obu_record p now msg zero_common ≡ some r)
        × (type_index r.vehicle_type ≡ some i)
        × Newest to_long f r (get_or s.special_obu_list i []) (get_or s'.special_obu_list i [])
  obu_packet_rx-Newest now msg s s' reach h =
      let (r, e, named, is) = obu_packet_rx_inv now msg s s' h in
      let (i, type) = has_index r.vehicle_type named.special in
      (
        rx-Step now msg s s' h,
        rw is refl,
        r,
        i,
        e,
        type,
        rw is (
            special_obu_record_insert-Newest to_long f s r i reach (omega (arith, named.short))
              type),
      )

  bsm_taken :
      (now : ℕ) (m : Bsm) (s : ObuLists)
      → bsm_is_complete m ≡ true
      → obu_packet_rx to_long f p now (basic_safety_message m) s
        ≡ some (insert_record to_long f (bsm_record p now m zero_common) s)
  unfolding obu_packet_rx v2r_msgf2obu_record
  bsm_taken now m s h = rw (obu_packet_rx, v2r_msgf2obu_record, h) refl

  -- A complete BSM of any classification but 50, 60, 63 and 66, such as one of a passenger car, is
  -- taken in, in every reachable state, as that of an ambulance with an empty name: it stands first
  -- in the ambulances' list.
  pub other_class-is_ambulance :
      (now : ℕ) (m : Bsm) (s : ObuLists)
      → Reachable to_long f s
      → bsm_is_complete m ≡ true
      → m.classification ≢ 50
      → m.classification ≢ 60
      → m.classification ≢ 63
      → m.classification ≢ 66
      → (s' : ObuLists) × (o : ObuObject) × (os : List ObuObject) × (obu_packet_rx to_long f p now
            (basic_safety_message m)
            s
          ≡ some s')
        × (get_or s'.special_obu_list 0 [] ≡ o ∷ os)
        × (o.obu_name ≡ [])
  unfolding bsm_record is_normal type_index
  other_class-is_ambulance now m s reach h a b c d =
      let r = bsm_record p now m zero_common in
      let who = other_class m.classification m.id vehicle_ambulance a b c d in
      let name : r.obu_name ≡ [] = ap (λ (x : Bytes × VehicleType). x.0) who in
      let type : r.vehicle_type ≡ vehicle_ambulance = ap (λ (x : Bytes × VehicleType). x.1) who in
      let new =
        special_obu_record_insert-Newest to_long f s r 0 reach (rw name (omega arith))
          (rw type refl) in
      (
        record s { special_obu_list = special_obu_record_insert f r s.special_obu_list },
        new.first,
        new.others,
        bsm_taken now m s h ∙ ap some (insert-special r s (rw type refl)),
        new.list_is,
        new.name_is ∙ name,
      )

  first_expired :
      (now : ℕ) (m : Bsm) (o : ObuObject)
      → p.mktime (p.localtime_r (bsm_second now m.sec_mark)) ≡ bsm_second now m.sec_mark
      → 120 ≤ now
      → m.sec_mark / 1000 + 30 < now % 60
      → last_record o.record_ring ≡ (bsm_record p now m zero_common).obu_record
      → is_expired now o ≡ true
  unfolding bsm_record
  first_expired now m o back late ahead h =
      rw h (rw back (lt→ltb _ now (ahead_second now m.sec_mark late ahead)))

  -- The vehicle's clock shows the next minute already, so that the second of its message is more than
  -- 30 below the unit's: the code goes back a minute where it should go on, and in every reachable
  -- state a garbage collection in the same second removes the special vehicle whose message it was.
  -- The calendar's two functions are inverse to each other on the time of the message.
  pub bsm_ahead-collected :
      (now i : ℕ) (m : Bsm) (s s' : ObuLists)
      → Reachable to_long f s
      → p.mktime (p.localtime_r (bsm_second now m.sec_mark)) ≡ bsm_second now m.sec_mark
      → 120 ≤ now
      → m.sec_mark / 1000 + 30 < now % 60
      → bsm_is_complete m ≡ true
      → type_index (bsm_record p now m zero_common).vehicle_type ≡ some i
      → obu_packet_rx to_long f p now (basic_safety_message m) s ≡ some s'
      → obu_object_search
          (bsm_record p now m zero_common).obu_name
          (get_or (obu_object_garbage_collection now s').special_obu_list i [])
        ≡ none
  unfolding obu_object_search is_normal v2r_msgf2obu_record
  bsm_ahead-collected now i m s s' reach back late ahead whole type h =
      let r = bsm_record p now m zero_common in
      let named =
        v2r-Named p now (basic_safety_message m) zero_common r refl
          (rw (v2r_msgf2obu_record, whole) refl) in
      let is : s'
          ≡ record s { special_obu_list = special_obu_record_insert f r s.special_obu_list } =
        sym (some_inj (sym (bsm_taken now m s whole) ∙ h)) ∙ insert-special r s named.special in
      let reach' = next reach (rx-Step now (basic_safety_message m) s s' h) in
      let new =
        special_obu_record_insert-Newest to_long f s r i reach (omega (arith, named.short)) type in
      let list : get_or s'.special_obu_list i [] ≡ new.first ∷ new.others = rw is new.list_is in
      let old = first_expired now m new.first back late ahead new.record_is in
      (garbage_collection-fresh to_long f s' now i r.obu_name reach').1
      ∙ (rw (list, new.name_is, bytes_eq_refl r.obu_name) (rw old refl))
