-- ===== src/ObuRecord/Message.antt =====
-- src/OBU_record_processing.c: the record that `V2R_msgf2OBU_record` takes from a vehicle's message,
-- and src/com_packet_processing.c: where `OBU_packet_rx_event_handler` puts it. A message has the
-- fields that the code reads; the decoder of the messages and the C library's calendar are
-- parameters.
use vips_adaptive_traffi.Common.{
  ℕ, suc, ◌+◌, ◌-◌, ◌/◌, ◌%◌, Bool, not, ◌&&◌, ◌||◌, Option, some, none, List, [], ◌∷◌, ◌++◌, Bytes,
  take, leb, ltb, ◌==◌, if◌then◌else◌, u8, ℤ,
}
use vips_adaptive_traffi.Signal.{
  VehicleType, vehicle_ambulance, vehicle_bus, vehicle_fire_truck, vehicle_police_car,
}
use vips_adaptive_traffi.ObuRecord.Ring.{zero_record, RecordCommonField}
use vips_adaptive_traffi.ObuRecord.Lists.{
  ObuLists, SpeedFilter, is_normal, normal_obu_record_insert, special_obu_record_insert,
}

-- The fields of `struct tm` that the code uses: the year is counted from 1900, the month from 0.
pub record Tm : Type 0 where
  pub tm_year : ℕ
  pub tm_mon : ℕ
  pub tm_mday : ℕ
  pub tm_hour : ℕ
  pub tm_min : ℕ
  pub tm_sec : ℕ

-- `localtime_r`, `mktime`, and the degrees, as a `float`, of a latitude or longitude.
pub record Platform : Type 0 where
  pub localtime_r : ℕ → Tm
  pub mktime : Tm → ℕ
  pub degrees : ℤ → ℕ

-- `months_arr`, with a day more in the February of a leap year.
unfoldable pub is_leap : ℕ → Bool
is_leap year = ((year % 400 == 0) || not (year % 100 == 0)) && (year % 4 == 0)

abbrev pub months_arr : ℕ → List ℕ
months_arr year =
    31 ∷ (if is_leap year then 29 else 28) ∷ 31 ∷ 30 ∷ 31 ∷ 30 ∷ 31 ∷ 31 ∷ 30 ∷ 31 ∷ 30 ∷ 31 ∷ []

-- The loop, from the months that are left: the month and the day that it ends with.
unfoldable pub month_loop : List ℕ → ℕ → ℕ → ℕ × ℕ
month_loop [] month yday = (month, yday)
month_loop (n ∷ ns) month yday =
    let rest = month_loop ns (suc month) (yday - n) in if leb yday n then (month, yday) else rest

-- The day of the month; `none` is the -1.
unfoldable pub yday2month_day : Tm → ℕ → Option ℕ
yday2month_day timeinfo yday =
    let found = month_loop (months_arr (timeinfo.tm_year + 1900)) 0 yday in
    if leb 12 found.0 || not (timeinfo.tm_mon == found.0) then none else some found.1

-- A `BasicSafetyMessage`, and the tests on its part II as their results.
pub record Bsm : Type 0 where
  pub part_ii_option : Bool
  pub part_ii_count : ℕ
  pub part_ii_is_supplemental : Bool
  pub classification_option : Bool
  pub classification : ℕ
  pub id : Bytes
  pub sec_mark : ℕ
  pub lat : ℤ
  pub long : ℤ
  pub speed : ℕ
  pub heading : ℕ

-- The `VehicleID` of a request: four bytes or a 32-bit number.
pub data VehicleId : Type 0 where
  entity_id : Bytes → VehicleId
  station_id : ℕ → VehicleId

-- `BasicVehicleRole`.
pub data Role : Type 0 where
  role_ambulance role_fire role_police role_other : Role

-- A `SignalRequestMessage`.
pub record Srm : Type 0 where
  pub type_option : Bool
  pub hpms_type_option : Bool
  pub hpms_type_is_car : Bool
  pub position_option : Bool
  pub speed_option : Bool
  pub heading_option : Bool
  pub role : Role
  pub id : VehicleId
  pub time_stamp : ℕ
  pub second : ℕ
  pub lat : ℤ
  pub long : ℤ
  pub speed : ℕ
  pub heading : ℕ

-- `MessageFrame`.
pub data Message : Type 0 where
  basic_safety_message : Bsm → Message
  signal_request_message : Srm → Message
  other_message : Message

-- The string in an array: the bytes before the first NUL.
unfoldable pub c_string : Bytes → Bytes
c_string [] = []
c_string (c ∷ cs) = if c == 0 then [] else c ∷ c_string cs

-- `strncat(name, buf, 4)`.
abbrev pub strncat4 : Bytes → Bytes → Bytes
strncat4 name buf = name ++ c_string (take 4 buf)

-- The bytes of a 32-bit number, the lowest first.
abbrev pub word_bytes : ℕ → Bytes
word_bytes n = u8 n ∷ u8 (n / 256) ∷ u8 (n / 65536) ∷ u8 (n / 16777216) ∷ []

unfoldable pub id_bytes : VehicleId → Bytes
id_bytes (entity_id buf) = buf
id_bytes (station_id n) = word_bytes n

abbrev pub bus_prefix : Bytes
bus_prefix = b'b' ∷ b'u' ∷ b's' ∷ b'_' ∷ []

abbrev pub amb_prefix : Bytes
amb_prefix = b'a' ∷ b'm' ∷ b'b' ∷ b'_' ∷ []

abbrev pub fir_prefix : Bytes
fir_prefix = b'f' ∷ b'i' ∷ b'r' ∷ b'_' ∷ []

abbrev pub pol_prefix : Bytes
pol_prefix = b'p' ∷ b'o' ∷ b'l' ∷ b'_' ∷ []

-- The name and the type that a classification gives; a classification of no special vehicle leaves
-- the name empty and the type that the record has.
unfoldable pub bsm_identity : ℕ → Bytes → VehicleType → Bytes × VehicleType
bsm_identity classification id type =
    if classification == 50
    then (strncat4 bus_prefix id, vehicle_bus)
    else if classification == 60
    then (strncat4 amb_prefix id, vehicle_ambulance)
    else if classification == 63
    then (strncat4 fir_prefix id, vehicle_fire_truck)
    else if classification == 66
    then (strncat4 pol_prefix id, vehicle_police_car)
    else ([], type)

unfoldable pub srm_identity : Role → VehicleId → Option (Bytes × VehicleType)
unfolding id_bytes
srm_identity role_ambulance id = some (strncat4 amb_prefix (id_bytes id), vehicle_ambulance)
srm_identity role_fire id = some (strncat4 fir_prefix (id_bytes id), vehicle_fire_truck)
srm_identity role_police id = some (strncat4 pol_prefix (id_bytes id), vehicle_police_car)
srm_identity role_other id = none

-- The second of a BSM: the running minute, or the one before, with the second of the message.
unfoldable pub bsm_second : ℕ → ℕ → ℕ
bsm_second now sec_mark =
    let second = now % 60 in
    let mark = sec_mark / 1000 in
    let tv_sec = if ltb mark second && ltb 30 (second - mark) then now - 60 else now in
    (tv_sec - second) + mark

unfoldable pub bsm_record : Platform → ℕ → Bsm → RecordCommonField → RecordCommonField
unfolding bsm_identity bsm_second
bsm_record p now bsm record_in =
    let who = bsm_identity bsm.classification bsm.id record_in.vehicle_type in
    record {
      obu_record = record (record_in.obu_record) {
        time_second = p.mktime (p.localtime_r (bsm_second now bsm.sec_mark));
        position_lat = p.degrees bsm.lat;
        position_lon = p.degrees bsm.long;
        speed = u8 (bsm.speed / 50);
        direction = u8 (bsm.heading / 3600) % 8;
      };
      obu_name = who.0;
      vehicle_type = who.1;
    }

unfoldable pub srm_record :
    Platform → ℕ → Srm → RecordCommonField → Bytes × VehicleType → Option RecordCommonField
srm_record p now srm record_in who =
    let timeinfo = p.localtime_r now in
    let dmin = srm.time_stamp % 1440 in
    elim (yday2month_day timeinfo (srm.time_stamp / 1440 + 1)) [
      | none ↦ none
      | some mday ↦ some record {
        obu_record = record (record_in.obu_record) {
          time_second = p.mktime (record timeinfo {
            tm_mday = mday;
            tm_hour = dmin / 60;
            tm_min = dmin % 60;
            tm_sec = srm.second / 1000;
          });
          position_lat = p.degrees srm.lat;
          position_lon = p.degrees srm.long;
          speed = u8 (srm.speed / 50);
          direction = u8 (srm.heading / 3600) % 8;
        };
        obu_name = who.0;
        vehicle_type = who.1;
      }
    ]

unfoldable pub srm_is_complete : Srm → Bool
srm_is_complete m =
    m.type_option
    && (m.hpms_type_option
        && (m.hpms_type_is_car && (m.position_option && (m.speed_option && m.heading_option))))

unfoldable pub bsm_is_complete : Bsm → Bool
bsm_is_complete m =
    m.part_ii_option
    && ((m.part_ii_count == 1) && (m.part_ii_is_supplemental && m.classification_option))

-- `none` is the -1, after which the caller drops the record.
unfoldable pub v2r_msgf2obu_record :
    Platform → ℕ → Message → RecordCommonField → Option RecordCommonField
v2r_msgf2obu_record p now (basic_safety_message m) r =
    if bsm_is_complete m then some (bsm_record p now m r) else none
v2r_msgf2obu_record p now (signal_request_message m) r =
    if srm_is_complete m
    then elim (srm_identity m.role m.id) [ none ↦ none | some who ↦ srm_record p now m r who ]
    else none
v2r_msgf2obu_record p now other_message r = none

-- `memset(&record, 0, sizeof record)`: the type with the number 0 is the ambulance.
abbrev pub zero_common : RecordCommonField
zero_common = record { obu_record = zero_record; obu_name = []; vehicle_type = vehicle_ambulance }

-- The handler's `switch` on the type.
unfoldable pub insert_record : (ℕ → ℕ) → SpeedFilter → RecordCommonField → ObuLists → ObuLists
insert_record to_long f r s =
    if is_normal r.vehicle_type
    then record s { normal_obu_list = normal_obu_record_insert to_long f r s.normal_obu_list }
    else record s { special_obu_list = special_obu_record_insert f r s.special_obu_list }

-- What `OBU_packet_rx_event_handler` does to the lists; `none` is its -1.
unfoldable pub obu_packet_rx :
    (ℕ → ℕ) → SpeedFilter → Platform → ℕ → Message → ObuLists → Option ObuLists
obu_packet_rx to_long f p now msg s = elim (v2r_msgf2obu_record p now msg zero_common) [
  | none ↦ none
  | some r ↦ some (insert_record to_long f r s)
]
