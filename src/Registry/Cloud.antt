-- ===== src/Registry/Cloud.antt =====
-- cloud_packet_rx_event_handler of src/com_packet_processing.c: a packet of the cloud, and the
-- callbacks that it is passed to.
use vips_adaptive_traffi.Common.{
  ℕ, ◌+◌, ◌-◌, ◌*◌, ◌/◌, ◌≤◌, ◌<◌, ◌≡◌, refl, sym, ap, ap₂, ◌∙◌, true, false, List, [], ◌∷◌, ◌++◌,
  Bytes, strncmp_eq, get_or, length, length-append, ltb, leb, if◌then◌else◌, ℤ, pos, negsuc, arith,
  u8,
}
use mathlib.Core.List.{append_assoc}
use vips_adaptive_traffi.MsgBuf.Bytes.{
  MsgBuf, get_bytes, read_uint32_t, read_uint8_t, read_char, uint32_t2byte,
}
use vips_adaptive_traffi.Status.Decode.{get_or-append}
use vips_adaptive_traffi.ObuRecord.Message.{c_string}
use vips_adaptive_traffi.Registry.Apps.{called, App, Registry, event_cloud_packet_rx}
use vips_adaptive_traffi.Registry.Sound.{IsRegistry, calls_of}

abbrev pub c2r_common_field_len : ℕ
c2r_common_field_len = 35

abbrev pub device_type_number : ℕ
device_type_number = 3

-- `C2R_common_field_t`.
pub record C2RCommonField : Type 0 where
  pub packet_len : ℕ
  pub device_type : ℕ
  pub rsu_name : Bytes
  pub timestamp : Bytes
  pub service_id : ℕ

unfoldable pub read_common_field : Bytes → C2RCommonField
read_common_field msg =
    let buf : MsgBuf = record { content = msg; index = 0 } in
    let len = read_uint32_t buf in
    let device = read_uint8_t len.1 in
    let name = read_char 10 device.1 in
    let time = read_char 19 name.1 in
    let service = read_uint8_t time.1 in
    record {
      packet_len = len.0;
      device_type = device.0;
      rsu_name = name.0;
      timestamp = time.0;
      service_id = service.0;
    }

-- What is done with a packet and its common field: the result, the callbacks, and the payload that
-- they are given.
unfoldable pub pass_on : Bytes → Registry → Bytes → C2RCommonField → ℤ × List (ℕ × App) × Bytes
pass_on rsu_name s msg f =
    let payload = get_bytes (f.packet_len - c2r_common_field_len) c2r_common_field_len msg in
    let calls = called f.service_id (s.callback_list event_cloud_packet_rx) in
    if ltb f.packet_len c2r_common_field_len
    then (negsuc 0, [], [])
    else if leb device_type_number f.device_type
    then (negsuc 1, [], [])
    else if strncmp_eq (c_string f.rsu_name) rsu_name 10
    then (if ltb f.service_id 1 then (negsuc 3, [], []) else (pos 0, calls, payload))
    else (negsuc 2, [], [])

-- The packet's length is not compared with the bytes that have come; what lies behind them reads as 0
-- here.
unfoldable pub cloud_packet_rx_event_handler : Bytes → Registry → Bytes → ℤ × List (ℕ × App) × Bytes
unfolding read_common_field pass_on
cloud_packet_rx_event_handler rsu_name s msg = pass_on rsu_name s msg (read_common_field msg)

-- A packet by its format, with the bytes behind its header.
abbrev pub c2r_packet : ℕ → ℕ → Bytes → Bytes → ℕ → Bytes → Bytes
c2r_packet len device name time service behind =
    uint32_t2byte len ++ (device ∷ (name ++ (time ++ (service ∷ behind))))

get_bytes-append :
    (pre xs rest : Bytes) → get_bytes (length xs) (length pre) (pre ++ (xs ++ rest)) ≡ xs
unfolding get_bytes
get_bytes-append pre [] rest = refl
get_bytes-append pre (x ∷ xs) rest =
    let here : length pre ≡ length pre + 0 = omega arith in
    ap₂ (λ a l. a ∷ l)
      (ap (λ i. get_or (pre ++ (x ∷ (xs ++ rest))) i 0) here
        ∙ get_or-append pre (x ∷ (xs ++ rest)) 0)
      (ap₂ (λ i l. get_bytes (length xs) i l) (omega (arith, length-append pre one))
          (sym (append_assoc pre one (xs ++ rest)))
        ∙ get_bytes-append (pre ++ one) xs rest)
  where
    one : Bytes
    one = x ∷ []

module _ (len device : ℕ) (name time : Bytes) (service : ℕ) (behind : Bytes)
    (name_10 : length name ≡ 10) (time_19 : length time ≡ 19) where
  abbrev packet : Bytes
  packet = c2r_packet len device name time service behind

  -- The first five bytes, in front of others.
  abbrev start : Bytes → Bytes
  start l = uint32_t2byte len ++ (device ∷ l)

  name_read : get_bytes 10 5 packet ≡ name
  unfolding get_bytes
  name_read =
      ap (λ n. get_bytes n 5 packet) (sym name_10)
      ∙ get_bytes-append (start []) name (time ++ (service ∷ behind))

  time_read : get_bytes 19 15 packet ≡ time
  time_read =
      ap₂ (λ n i. get_bytes n i packet) (sym time_19) (omega (arith, name_10))
      ∙ get_bytes-append (start name) time (service ∷ behind)

  service_read : get_or packet 34 0 ≡ service
  service_read =
      ap₂ (λ i l. get_or (start l) i 0) {x = 34}
        (omega (arith, name_10, time_19, length-append name time))
        (sym (append_assoc name time (service ∷ behind)))
      ∙ get_or-append (start (name ++ time)) (service ∷ behind) 0

  payload_read :
      (payload rest : Bytes)
      → behind ≡ payload ++ rest
      → get_bytes (length payload) 35 packet ≡ payload
  payload_read payload rest is =
      let one : Bytes = service ∷ [] in
      let before : Bytes = name ++ (time ++ one) in
      let joined : before ++ (payload ++ rest) ≡ name ++ (time ++ (service ∷ (payload ++ rest))) =
        append_assoc name (time ++ one) (payload ++ rest)
        ∙ ap (λ l. name ++ l) (append_assoc time one (payload ++ rest)) in
      ap (λ l. get_bytes (length payload) 35 (start (name ++ (time ++ (service ∷ l))))) is
      ∙ ap₂ (λ i l. get_bytes (length payload) i (start l)) {x = 35}
          (omega
            (arith, name_10, time_19, length-append name (time ++ one), length-append time one))
          (sym joined)
      ∙ get_bytes-append (start before) payload rest

  len_read :
      len < 4294967296
      → u8 (len / 16777216) * 16777216 + u8 (len / 65536) * 65536 + u8 (len / 256) * 256 + u8 len
        ≡ len
  len_read small = omega (arith, small)

pass_on-calls_of :
    (rsu_name msg : Bytes) (s : Registry) (f : C2RCommonField) (payload : Bytes)
    → IsRegistry s
    → f.packet_len ≡ c2r_common_field_len + length payload
    → get_bytes (length payload) c2r_common_field_len msg ≡ payload
    → f.device_type < device_type_number
    → strncmp_eq (c_string f.rsu_name) rsu_name 10 ≡ true
    → 1 ≤ f.service_id
    → pass_on rsu_name s msg f
      ≡ (pos 0, calls_of f.service_id event_cloud_packet_rx s.app_list, payload)
unfolding pass_on
pass_on-calls_of rsu_name msg s f payload h len is known ours served =
    let long : ltb f.packet_len c2r_common_field_len ≡ false = ground (arith, len) in
    let valid : leb device_type_number f.device_type ≡ false = ground (arith, known) in
    let service : ltb f.service_id 1 ≡ false = ground (arith, served) in
    let size : f.packet_len - c2r_common_field_len ≡ length payload = omega (arith, len) in
    rw long (
      rw valid (
        rw ours (
          rw service (
            ap₂ (λ calls p. (pos 0, calls, p)) (h.calls f.service_id event_cloud_packet_rx)
              (ap (λ n. get_bytes n c2r_common_field_len msg) size ∙ is)))))

-- A packet of the cloud for this unit, from a device of a known type and with a service id that is not
-- 0, is taken in whole, whatever follows it: the payload is the one that was sent, and it is passed to
-- exactly one callback, that of the application registered under the service id, or to none if there
-- is no such application or it wants no packets of the cloud.
pub cloud_packet_rx_event_handler-calls_of :
    (rsu_name : Bytes) (s : Registry) (device : ℕ) (name time : Bytes) (service : ℕ)
    (payload rest : Bytes)
    → IsRegistry s
    → device < device_type_number
    → length name ≡ 10
    → strncmp_eq (c_string name) rsu_name 10 ≡ true
    → length time ≡ 19
    → 1 ≤ service
    → c2r_common_field_len + length payload < 4294967296
    → let len = c2r_common_field_len + length payload in
      cloud_packet_rx_event_handler rsu_name s
        (c2r_packet len device name time service (payload ++ rest))
      ≡ (pos 0, calls_of service event_cloud_packet_rx s.app_list, payload)
unfolding cloud_packet_rx_event_handler read_common_field read_uint32_t read_uint8_t read_char
cloud_packet_rx_event_handler-calls_of rsu_name s device name time service payload rest h known
      name_10 ours time_19 served small =
    let len = c2r_common_field_len + length payload in
    let behind = payload ++ rest in
    let msg = c2r_packet len device name time service behind in
    let f : C2RCommonField = record {
      packet_len = len;
      device_type = device;
      rsu_name = name;
      timestamp = time;
      service_id = service;
    } in
    let read : read_common_field msg ≡ f = λ i. record {
      packet_len = len_read len device name time service behind name_10 time_19 small i;
      device_type = device;
      rsu_name = name_read len device name time service behind name_10 time_19 i;
      timestamp = time_read len device name time service behind name_10 time_19 i;
      service_id = service_read len device name time service behind name_10 time_19 i;
    } in
    ap (pass_on rsu_name s msg) read
    ∙ pass_on-calls_of rsu_name msg s f payload h refl
        (payload_read len device name time service behind name_10 time_19 payload rest refl) known
        ours served
