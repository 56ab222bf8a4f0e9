-- ===== src/Serial/Packet.antt =====
-- A frame of the signal protocol (include/typedefine.h) and its checks
-- (src/traffic_signal_packet_rx.c).
use vips_adaptive_traffi.Common.{
  ℕ, ◌+◌, ◌*◌, ◌&&◌, [], ◌∷◌, bit_xor, Bytes, take, ◌==◌, if◌then◌else◌,
}

abbrev pub dle_val : ℕ
dle_val = 0xAA

abbrev pub stx_val : ℕ
stx_val = 0xBB

abbrev pub etx_val : ℕ
etx_val = 0xCC

abbrev pub ack_val : ℕ
ack_val = 0xDD

abbrev pub nak_val : ℕ
nak_val = 0xEE

abbrev pub addr_val : ℕ
addr_val = 0xFF

-- The bytes of a frame that are not information: 7 in front, 3 behind.
abbrev pub header_len : ℕ
header_len = 10

abbrev pub max_payload_len : ℕ
max_payload_len = 118

-- `info` is the buffer INFO, as far as the model needs it.
pub record Packet : Type 0 where
  pub cks : ℕ
  pub dle_1 : ℕ
  pub type : ℕ
  pub seq : ℕ
  pub addr_0 : ℕ
  pub addr_1 : ℕ
  pub len_0 : ℕ
  pub len_1 : ℕ
  pub dle_2 : ℕ
  pub etx : ℕ
  pub info : Bytes

-- `(LEN[0] << 8) | LEN[1]`, for bytes; so too `be16toh` of the field.
abbrev pub be16 : ℕ → ℕ → ℕ
be16 hi lo = hi * 256 + lo

unfoldable pub traffic_signal_packet_init : Packet → Packet
traffic_signal_packet_init p = record p { dle_1 = dle_val }

unfoldable pub traffic_signal_packet_clean : Packet → Packet
traffic_signal_packet_clean p = record p { dle_2 = 0; etx = 0 }

unfoldable pub xor_bytes : ℕ → Bytes → ℕ
xor_bytes acc [] = acc
xor_bytes acc (x ∷ xs) = xor_bytes (bit_xor acc x) xs

-- The first seven bytes on the line, and the two behind the information.
abbrev pub front_bytes : Packet → Bytes
front_bytes p = p.dle_1 ∷ p.type ∷ p.seq ∷ p.addr_0 ∷ p.addr_1 ∷ p.len_0 ∷ p.len_1 ∷ []

abbrev pub header_bytes : Packet → Bytes
header_bytes p =
    p.dle_1 ∷ p.type ∷ p.seq ∷ p.addr_0 ∷ p.addr_1 ∷ p.len_0 ∷ p.len_1 ∷ p.dle_2 ∷ p.etx ∷ []

unfoldable pub check_sum : Packet → ℕ → ℕ
check_sum p info_len = bit_xor (xor_bytes 0 (header_bytes p)) (xor_bytes 0 (take info_len p.info))

unfoldable pub error_length : Packet → ℕ
error_length p = if (p.dle_2 == dle_val) && (p.etx == etx_val) then 0 else 1

unfoldable pub error_cks : Packet → ℕ → ℕ
error_cks p cks = if p.cks == cks then 0 else 1
