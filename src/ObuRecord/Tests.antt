-- ===== src/ObuRecord/Tests.antt =====
-- A bus and an ambulance that send messages to the unit.
use vips_adaptive_traffi.Common.{
  ℕ, ◌+◌, ◌≡◌, ◌≢◌, refl, true, some, List, [], ◌∷◌, Bytes, bytes_eq, get_or, arith, ◌==◌,
  if◌then◌else◌, pos,
}
use vips_adaptive_traffi.Signal.{vehicle_normal, vehicle_bus}
use vips_adaptive_traffi.CommandBuffer.Insert.{
  insert_accept, validate, insert_valid, decide, clamp_command, command_buf_insert_effect_time,
}
use vips_adaptive_traffi.CommandBuffer.Sample.{idle_state, bus_command}
use vips_adaptive_traffi.ObuRecord.Ring.{zero_record, RecordCommonField, zero_ring}
use vips_adaptive_traffi.ObuRecord.Lists.{
  ObuObject, ObuLists, SpeedFilter, obu_object_processing, obu_object_unknown, obu_object_granted,
  type_index, is_normal, obu_object_search, normal_obu_record_insert, special_obu_record_insert,
  special_obu_list_search_status, obu_object_garbage_collection, obu_object_garbage_collection_init,
}
use vips_adaptive_traffi.ObuRecord.Find.{normal_next}
use vips_adaptive_traffi.ObuRecord.Reach.{
  IsSoundLists, Step, step_special, Reachable, start, next, Reachable-IsSoundLists,
}
use vips_adaptive_traffi.ObuRecord.Table.{concat, normal_obu_record_insert-search}
use vips_adaptive_traffi.ObuRecord.Newest.{Newest, Collected, garbage_collection-search}
use vips_adaptive_traffi.ObuRecord.Granted.{deliver, insert-granted}
use vips_adaptive_traffi.ObuRecord.Message.{
  Platform, Bsm, basic_safety_message, bsm_record, bsm_is_complete, v2r_msgf2obu_record,
  zero_common, insert_record, obu_packet_rx,
}
use vips_adaptive_traffi.ObuRecord.Receive.{obu_packet_rx-Newest}

abbrev same : ℕ → ℕ
same n = n

abbrev filter : SpeedFilter
filter = record { to_float = same; kalman = λ old speed. old + speed }

abbrev platform : Platform
platform = record {
  localtime_r =
      λ t. record { tm_year = 126; tm_mon = 0; tm_mday = 1; tm_hour = 0; tm_min = 0; tm_sec = t };
  mktime = λ tm. tm.tm_sec;
  degrees = λ x. 0;
}

abbrev bus_name : Bytes
bus_name = b'B' ∷ b'U' ∷ b'S' ∷ []

abbrev bus_record : RecordCommonField
bus_record = record {
  obu_record = record zero_record { time_second = 1000 };
  obu_name = bus_name;
  vehicle_type = vehicle_bus;
}

abbrev car_record : RecordCommonField
car_record = record bus_record { vehicle_type = vehicle_normal }

-- The lists after the bus's first record.
abbrev with_bus : ObuLists
with_bus = record obu_object_garbage_collection_init {
  special_obu_list =
      special_obu_record_insert filter bus_record
        obu_object_garbage_collection_init.special_obu_list;
}

with_bus-Reachable : Reachable same filter with_bus
with_bus-Reachable = next start (step_special bus_record (omega arith))

Reachable-IsSoundLists_example : IsSoundLists same with_bus
Reachable-IsSoundLists_example = Reachable-IsSoundLists same filter with_bus-Reachable

normal_obu_record_insert-search_example :
    obu_object_search bus_name
      (concat (normal_obu_record_insert same filter car_record with_bus.normal_obu_list))
    ≡ (if bytes_eq bus_name bus_name
        then some (
            normal_next filter car_record
              (obu_object_search bus_name (concat with_bus.normal_obu_list)))
        else obu_object_search bus_name (concat with_bus.normal_obu_list))
unfolding is_normal
normal_obu_record_insert-search_example =
    normal_obu_record_insert-search same filter with_bus car_record bus_name with_bus-Reachable
      (omega arith) refl

garbage_collection-search_example :
    Collected 1061 (obu_object_search bus_name (get_or with_bus.normal_obu_list 1 [])) (
      obu_object_search bus_name
        (get_or (obu_object_garbage_collection 1061 with_bus).normal_obu_list 1 []))
    × Collected 1061 (obu_object_search bus_name (get_or with_bus.special_obu_list 1 [])) (
        obu_object_search bus_name
          (get_or (obu_object_garbage_collection 1061 with_bus).special_obu_list 1 []))
garbage_collection-search_example =
    garbage_collection-search same filter with_bus 1061 1 bus_name with_bus-Reachable

bus_accepted : (command_buf_insert_effect_time bus_command idle_state).0 ≡ insert_accept
unfolding command_buf_insert_effect_time validate insert_valid decide clamp_command
bus_accepted = refl

abbrev bus_lists : List (List ObuObject)
bus_lists =
    []
    ∷ (record {
      obu_name = bus_name;
      vehicle_type = vehicle_bus;
      status = obu_object_processing;
      prediction_speed = 0;
      record_ring = zero_ring;
    }
        ∷ [])
    ∷ []
    ∷ []
    ∷ []

bus-known :
    special_obu_list_search_status vehicle_bus bus_name (deliver [] bus_lists) ≢ obu_object_unknown
unfolding deliver special_obu_list_search_status type_index obu_object_search bytes_eq
bus-known h = cc

insert-granted_example :
    special_obu_list_search_status vehicle_bus bus_name
      (deliver (command_buf_insert_effect_time bus_command idle_state).1.calls bus_lists)
    ≡ (if 1 == 1
        then obu_object_granted
        else special_obu_list_search_status vehicle_bus bus_name (deliver [] bus_lists))
insert-granted_example = insert-granted bus_command idle_state bus_lists bus_accepted bus-known

-- A message of a passenger car, and one of a bus whose clock is ahead.
abbrev car_message : Bsm
car_message = record {
  part_ii_option = true;
  part_ii_count = 1;
  part_ii_is_supplemental = true;
  classification_option = true;
  classification = 10;
  id = 1 ∷ 2 ∷ 3 ∷ 4 ∷ [];
  sec_mark = 2000;
  lat = pos 0;
  long = pos 0;
  speed = 500;
  heading = 0;
}

abbrev bus_message : Bsm
bus_message = record car_message { classification = 50 }

abbrev after_bus_message : ObuLists
after_bus_message =
    insert_record same filter (bsm_record platform 178 bus_message zero_common) with_bus

bus_message-taken :
    obu_packet_rx same filter platform 178 (basic_safety_message bus_message) with_bus
    ≡ some after_bus_message
unfolding obu_packet_rx v2r_msgf2obu_record bsm_is_complete
bus_message-taken = refl

obu_packet_rx-Newest_example :
    Step same filter with_bus after_bus_message
    × (after_bus_message.normal_obu_list ≡ with_bus.normal_obu_list)
    × (r : RecordCommonField) × (i : ℕ) × (v2r_msgf2obu_record platform 178
          (basic_safety_message bus_message)
          zero_common
        ≡ some r)
    × (type_index r.vehicle_type ≡ some i)
    × Newest same filter r
        (get_or with_bus.special_obu_list i [])
        (get_or after_bus_message.special_obu_list i [])
obu_packet_rx-Newest_example =
    obu_packet_rx-Newest same filter platform 178 (basic_safety_message bus_message) with_bus
      after_bus_message with_bus-Reachable bus_message-taken

car_message-whole : bsm_is_complete car_message ≡ true
unfolding bsm_is_complete
car_message-whole = refl
