-- ===== src/Serial/Tx.antt =====
-- src/traffic_signal_packet_tx.c: the requests that are written to the signal controller.
-- `malloc` succeeds, `write` takes the whole frame, and the logging is left out.
use vips_adaptive_traffi.Common.{
  ℕ, ◌+◌, ◌-◌, ◌||◌, List, [], ◌∷◌, ◌++◌, Bytes, take, u8, ◌==◌, if◌then◌else◌,
}
use vips_adaptive_traffi.Serial.Packet.{
  Packet, front_bytes, be16, header_len, dle_val, stx_val, etx_val, addr_val, check_sum,
}

-- The global `seq_num`, and the frames written so far, the oldest first.
pub record Tx : Type 0 where
  pub seq_num : ℕ
  pub written : List Bytes

unfoldable pub get_seq_num : Tx → ℕ × Tx
get_seq_num t = (t.seq_num, record t { seq_num = u8 (t.seq_num + 1) })

-- The bytes that `TC_packet_tx` puts together.
unfoldable pub output_bytes : Packet → Bytes
output_bytes p =
    let info_len = be16 p.len_0 p.len_1 - header_len in
    front_bytes p ++ (take info_len p.info ++ (p.dle_2 ∷ p.etx ∷ check_sum p info_len ∷ []))

unfoldable pub tc_packet_tx : Packet → Tx → ℕ × Tx
tc_packet_tx p t = (p.seq, record t { written = t.written ++ (output_bytes p ∷ []) })

-- `Malloc` zeroes the packet; the macro `signal_packet_init` fills the constant fields.
unfoldable pub signal_packet : ℕ → ℕ → ℕ → Bytes → Packet
signal_packet seq len_0 len_1 info = record {
  cks = 0;
  dle_1 = dle_val;
  type = stx_val;
  seq = seq;
  addr_0 = addr_val;
  addr_1 = addr_val;
  len_0 = len_0;
  len_1 = len_1;
  dle_2 = dle_val;
  etx = etx_val;
  info = info;
}

-- What every request does once its INFO bytes are chosen.
unfoldable pub request : ℕ → ℕ → Bytes → Tx → ℕ × Tx
unfolding get_seq_num tc_packet_tx
request len_0 len_1 info t =
    let (seq, t') = get_seq_num t in tc_packet_tx (signal_packet seq len_0 len_1 info) t'

unfoldable pub tsc_dynamic : Tx → ℕ × Tx
tsc_dynamic = request 0x00 0x0E (0x5F ∷ 0x10 ∷ 0x15 ∷ 0x78 ∷ [])

unfoldable pub tsc_pretime : Tx → ℕ × Tx
tsc_pretime = request 0x00 0x0E (0x5F ∷ 0x10 ∷ 0x20 ∷ 0x00 ∷ [])

unfoldable pub tsc_switch_strategy : Tx → ℕ × Tx
tsc_switch_strategy = request 0x00 0x0E (0x5F ∷ 0x10 ∷ 0x16 ∷ 0x00 ∷ [])

unfoldable pub tsc_switch : Tx → ℕ × Tx
tsc_switch = request 0x00 0x0F (0x5F ∷ 0x1C ∷ 0x00 ∷ 0x00 ∷ 0x00 ∷ [])

unfoldable pub tsc_extend : ℕ → ℕ → ℕ → Tx → ℕ × Tx
tsc_extend subphase step effect_time =
    request 0x00 0x0F
      (0x5F ∷ 0x1C ∷ subphase ∷ step ∷ (if effect_time == 170 then 171 else effect_time) ∷ [])

unfoldable pub tsc_evsp_on : ℕ → Tx → ℕ × Tx
tsc_evsp_on subphase = request 0x00 0x11 (0x5F ∷ 0x19 ∷ subphase ∷ 0x01 ∷ 0x00 ∷ 0xFF ∷ 0xEA ∷ [])

unfoldable pub tsc_evsp_off : Tx → ℕ × Tx
tsc_evsp_off = request 0x00 0x11 (0x5F ∷ 0x19 ∷ 0x00 ∷ 0x01 ∷ 0x00 ∷ 0xFF ∷ 0xEF ∷ [])

unfoldable pub tsc_5F4C : Tx → ℕ × Tx
tsc_5F4C = request 0x00 0x0C (0x5F ∷ 0x4C ∷ [])

unfoldable pub tsc_5F48 : Tx → ℕ × Tx
tsc_5F48 = request 0x00 0x0C (0x5F ∷ 0x48 ∷ [])

-- `plan_id` is `get_plan_id()`.
unfoldable pub tsc_5F44 : ℕ → Tx → ℕ × Tx
tsc_5F44 plan_id = request 0x00 0x0D (0x5F ∷ 0x44 ∷ plan_id ∷ [])

unfoldable pub tsc_5F45 : ℕ → Tx → ℕ × Tx
tsc_5F45 plan_id = request 0x00 0x0D (0x5F ∷ 0x45 ∷ plan_id ∷ [])

-- `phase_order` is `get_PhaseOrder()`.
unfoldable pub tsc_5F43 : ℕ → Tx → ℕ × Tx
tsc_5F43 phase_order = request 0x00 0x0D (0x5F ∷ 0x43 ∷ phase_order ∷ [])

unfoldable pub tsc_0F42 : Tx → ℕ × Tx
tsc_0F42 = request 0x00 0x0C (0x0F ∷ 0x42 ∷ [])

unfoldable pub tsc_5F46 : ℕ → Tx → ℕ × Tx
tsc_5F46 week_day = request 0x00 0x0E (0x5F ∷ 0x46 ∷ 0xFF ∷ week_day ∷ [])

-- The last INFO byte for a controller of each make; it stays 0 for an unknown one.
unfoldable pub tsc_countdown_on : ℕ → Tx → ℕ × Tx
tsc_countdown_on machine_type =
    request 0x00 0x11 (0x5F ∷ 0x19 ∷ 0x00 ∷ 0x01 ∷ 0xFF ∷ 0xFF ∷ last ∷ [])
  where
    last : ℕ
    last =
        if (machine_type == 0) || (machine_type == 2)
        then 0xFE
        else if machine_type == 1
        then 0xFF
        else 0

unfoldable pub tsc_countdown_off : ℕ → Tx → ℕ × Tx
tsc_countdown_off machine_type =
    request 0x00 0x11 (0x5F ∷ 0x19 ∷ 0x00 ∷ 0x01 ∷ 0xFF ∷ 0xFF ∷ last ∷ [])
  where
    last : ℕ
    last =
        if (machine_type == 0) || (machine_type == 2)
        then 0xFF
        else if machine_type == 1
        then 0xFE
        else 0

unfoldable pub tsc_query_firmware_version : Tx → ℕ × Tx
tsc_query_firmware_version = request 0x00 0x0C (0x0F ∷ 0x43 ∷ [])
