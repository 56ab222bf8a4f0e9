-- ===== src/Serial/Rx.antt =====
-- src/traffic_signal_packet_rx.c: the byte stream from the signal controller.
-- A `read` of n bytes waits until n bytes have come; the port is in that mode for each n that the
-- code asks for. `none` says that the input so far ends inside a frame. The logging is left out.
use vips_adaptive_traffi.Common.{
  ℕ, zero, suc, ◌+◌, ◌-◌, Bool, true, false, not, ◌&&◌, Option, none, some, List, [], ◌∷◌, ◌++◌,
  Bytes, length, get_or, take, drop, u16, ltb, leb, ◌==◌, if◌then◌else◌, ◌>>=◌,
}
use vips_adaptive_traffi.Serial.Packet.{
  Packet, front_bytes, be16, header_len, dle_val, stx_val, ack_val, nak_val, addr_val,
  traffic_signal_packet_clean, check_sum, error_length, error_cks,
}

-- The calls that a frame leads to: the handlers of src/traffic_signal_status_updating.c, and the
-- change of the controller's make.
pub data Handler : Type 0 where
  packet_5FCC packet_5FC8 packet_5FC5 packet_5FC4 packet_5FC6 : Handler
  packet_5F0C packet_5FC3 packet_0FC2 packet_0F04 firmware_0FC3 : Handler

-- The receiving thread: its packet, `ack_seq`, the input that is left, the bytes written back and
-- the handler calls made, each with the INFO bytes that it reads.
pub record Rx : Type 0 where
  pub packet : Packet
  pub ack_seq : Option ℕ
  pub input : Bytes
  pub replies : List Bytes
  pub calls : List (Handler × Bytes)

-- `read(fd, _, n)`.
unfoldable pub read : ℕ → Rx → Option (Bytes × Rx)
read n r =
    if leb n (length r.input)
    then some (take n r.input, record r { input = drop n r.input })
    else none

unfoldable pub read_header : Rx → Option Rx
unfolding traffic_signal_packet_clean
read_header r = do
  (bs, r') ← read 5 r
  some (record r' {
    packet = record (traffic_signal_packet_clean r.packet) {
      seq = get_or bs 0 0;
      addr_0 = get_or bs 1 0;
      addr_1 = get_or bs 2 0;
      len_0 = get_or bs 3 0;
      len_1 = get_or bs 4 0;
    };
  })

unfoldable pub read_trailer : Rx → Option Rx
read_trailer r = do
  (bs, r') ← read 2 r
  some (record r' { packet = record (r.packet) { dle_2 = get_or bs 0 0; etx = get_or bs 1 0 } })

-- `read(fd, &packet->CKS, 1)`.
unfoldable pub read_cks : Rx → Option Rx
read_cks r = do
  (bs, r') ← read 1 r
  some (record r' { packet = record (r.packet) { cks = get_or bs 0 0 } })

-- Bytes put into the buffer INFO from an index on; a byte past its end is not kept here, where
-- the C code writes past the allocation: a length field from 10 to 128 keeps all of them inside.
unfoldable pub write_at : Bytes → ℕ → Bytes → Bytes
write_at [] i bs = []
write_at (x ∷ xs) zero [] = x ∷ xs
write_at (x ∷ xs) zero (b ∷ bs) = b ∷ write_at xs zero bs
write_at (x ∷ xs) (suc i) bs = x ∷ write_at xs i bs

-- `read(fd, &packet->INFO[index], n)`.
unfoldable pub read_chunk : ℕ → ℕ → Rx → Option Rx
read_chunk index n r = do
  (bs, r') ← read n r
  some (record r' { packet = record (r.packet) { info = write_at r.packet.info index bs } })

-- At most VMIN_LEN bytes are asked for at a time.
abbrev pub chunk_len : ℕ → ℕ
chunk_len info_less = if ltb info_less 20 then info_less else 20

-- The loop that reads INFO. Each round takes at least one byte, so `info_len` rounds are enough.
unfoldable pub read_info : ℕ → ℕ → ℕ → Rx → Option Rx
read_info zero info_len info_index r = some r
read_info (suc fuel) info_len info_index r =
    let n = chunk_len (info_len - info_index) in
    let rest : Option Rx = (do
      r' ← read_chunk info_index n r
      read_info fuel info_len (info_index + n) r') in
    if ltb info_index info_len then rest else some r

unfoldable pub send_ack : Rx → Rx
unfolding traffic_signal_packet_clean
send_ack r =
    let p =
      traffic_signal_packet_clean
        (record (r.packet) { type = ack_val; len_0 = 0x00; len_1 = 0x08 }) in
    record r { packet = p; replies = r.replies ++ ((front_bytes p ++ (check_sum p 0 ∷ [])) ∷ []) }

unfoldable pub send_nak : ℕ → Rx → Rx
unfolding traffic_signal_packet_clean write_at
send_nak err r =
    let p = traffic_signal_packet_clean (record (r.packet) {
      type = nak_val;
      addr_0 = addr_val;
      addr_1 = addr_val;
      len_0 = 0x00;
      len_1 = 0x09;
      info = write_at r.packet.info 0 (err ∷ []);
    }) in
    record r {
      packet = p;
      replies = r.replies ++ ((front_bytes p ++ (err ∷ check_sum p 1 ∷ [])) ∷ []);
    }

-- One `if (INFO[0] == a && INFO[1] == b)`.
abbrev pub on : Bytes → ℕ → ℕ → Handler → List (Handler × Bytes)
on info a b h = if (get_or info 0 0 == a) && (get_or info 1 0 == b) then (h, info) ∷ [] else []

-- The row of tests behind the acknowledgement.
unfoldable pub dispatch : Bytes → List (Handler × Bytes)
dispatch info =
    on info 0x5F 0xCC packet_5FCC
    ++ (on info 0x5F 0xC8 packet_5FC8
        ++ (on info 0x5F 0xC5 packet_5FC5
            ++ (on info 0x5F 0xC4 packet_5FC4
                ++ (on info 0x5F 0xC6 packet_5FC6
                    ++ (on info 0x5F 0x0C packet_5F0C
                        ++ (on info 0x5F 0xC3 packet_5FC3
                            ++ (on info 0x0F 0xC2 packet_0FC2
                                ++ (on info 0x0F 0x04 packet_0F04
                                    ++ on info 0x0F 0xC3 firmware_0FC3))))))))

-- What `recv_info` does once the information and the trailer are there.
unfoldable pub finish_info : ℕ → Rx → Option Rx
unfolding error_length error_cks dispatch
finish_info info_len r = if error_length r.packet == 1 then some (send_nak 0x8 r) else do
  r' ← read_cks r
  some (
      if error_cks r'.packet (check_sum r'.packet info_len) == 1
      then send_nak 0x1 r'
      else record (send_ack r') { calls = r'.calls ++ dispatch r'.packet.info })

unfoldable pub recv_info : Rx → Option Rx
recv_info r = do
  r1 ← read_header r
  let info_len = u16 (be16 r1.packet.len_0 r1.packet.len_1 + 65536 - header_len)
  r2 ← read_info info_len info_len 0 r1
  r3 ← read_trailer r2
  finish_info info_len r3

-- `recv_ack` returns -1 (`none`) at a bad checksum.
unfoldable pub recv_ack : Rx → Option Rx
unfolding error_cks
recv_ack r = do
  r1 ← read_header r
  r2 ← read_cks r1
  let p = r2.packet
  some (record r2 { ack_seq = if error_cks p (check_sum p 0) == 1 then none else some p.seq })

-- A refusal from the controller is read and only logged.
unfoldable pub recv_nak : Rx → Option Rx
recv_nak r = do r1 ← read_header r; r2 ← read_chunk 0 1 r1; read_cks r2

-- What follows the byte `b` behind a DLE.
unfoldable pub rx_escaped : ℕ → Rx → Option Rx
rx_escaped b r =
    let p = r.packet in
    if b == stx_val
    then recv_info (record r { packet = record p { type = stx_val } })
    else if b == ack_val
    then recv_ack (record r { packet = record p { type = ack_val } })
    else if b == nak_val
    then recv_nak (record r { packet = record p { type = nak_val } })
    else some r

-- One round of the receiving loop, behind its `read`: `escape_flag` says that the byte before was
-- a DLE. It gives the flag for the next round.
unfoldable pub rx_byte : Bool → ℕ → Rx → Option (Bool × Rx)
rx_byte escape_flag b r =
    let escaped : Option (Bool × Rx) = rx_escaped b r >>= λ r'. some (false, r') in
    if (b == dle_val) && not escape_flag
    then some (true, r)
    else if escape_flag
    then escaped
    else some (false, r)

-- The loop over the input that has come. It ends where the thread waits for a byte.
unfoldable pub rx_handler : ℕ → Bool → Rx → Option Rx
rx_handler zero escape_flag r = some r
rx_handler (suc fuel) escape_flag r = elim (read 1 r) [
  | none ↦ some r
  | some (bs, r') ↦ rx_byte escape_flag (get_or bs 0 0) r' >>= λ (escape_flag', r'').
      rx_handler fuel escape_flag' r''
]

-- Each round takes a byte, so as many rounds as there are bytes are enough.
unfoldable pub rx_run : Rx → Option Rx
unfolding rx_handler
rx_run r = rx_handler (length r.input) false r
