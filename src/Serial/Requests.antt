-- ===== src/Serial/Requests.antt =====
-- Each request of src/traffic_signal_packet_tx.c on its way to the other side of the protocol.
use vips_adaptive_traffi.Common.{
  ℕ, ◌≤◌, ◌≡◌, refl, sym, ap, ◌∙◌, [], ◌∷◌, ◌++◌, Bytes, length, false, arith,
}
use mathlib.Core.List.{append-nil}
use vips_adaptive_traffi.Serial.Packet.{dle_val, max_payload_len}
use vips_adaptive_traffi.Serial.Tx.{
  Tx, output_bytes, signal_packet, request, get_seq_num, tc_packet_tx, tsc_dynamic, tsc_pretime,
  tsc_switch_strategy, tsc_switch, tsc_extend, tsc_evsp_on, tsc_evsp_off, tsc_5F4C, tsc_5F48,
  tsc_5F44, tsc_5F45, tsc_5F43, tsc_0F42, tsc_5F46, tsc_countdown_on, tsc_countdown_off,
  tsc_query_firmware_version,
}
use vips_adaptive_traffi.Serial.Rx.{Rx, rx_handler, send_ack}
use vips_adaptive_traffi.Serial.Link.Accept.{HasLength, ack_bytes}
use vips_adaptive_traffi.Serial.Link.Exchange.{accepted, rx_handler-output_bytes, replies-accepted}

-- The requests by name, with their arguments.
pub data Request : Type 0 where
  dynamic pretime switch_strategy switch evsp_off query_5F4C query_5F48 query_0F42 : Request
  firmware_version : Request
  extend : ℕ → ℕ → ℕ → Request
  evsp_on query_5F44 query_5F45 query_5F43 query_5F46 countdown_on countdown_off : ℕ → Request

abbrev pub send : Request → Tx → ℕ × Tx
send dynamic = tsc_dynamic
send pretime = tsc_pretime
send switch_strategy = tsc_switch_strategy
send switch = tsc_switch
send evsp_off = tsc_evsp_off
send query_5F4C = tsc_5F4C
send query_5F48 = tsc_5F48
send query_0F42 = tsc_0F42
send firmware_version = tsc_query_firmware_version
send (extend subphase step time) = tsc_extend subphase step time
send (evsp_on subphase) = tsc_evsp_on subphase
send (query_5F44 plan_id) = tsc_5F44 plan_id
send (query_5F45 plan_id) = tsc_5F45 plan_id
send (query_5F43 phase_order) = tsc_5F43 phase_order
send (query_5F46 week_day) = tsc_5F46 week_day
send (countdown_on machine_type) = tsc_countdown_on machine_type
send (countdown_off machine_type) = tsc_countdown_off machine_type

-- A request has been written as one more frame, under the sequence number that it returns, and the
-- other side, whose loop reads the frame, takes all of it and answers with the acknowledgement of
-- that number.
pub record IsAnswered (t : Tx) (r : Rx) (sent : ℕ × Tx) : Type 0 where
  pub frame : Bytes
  pub receiver : Rx
  pub numbered : sent.0 ≡ t.seq_num
  pub framed : sent.1.written ≡ t.written ++ (frame ∷ [])
  pub received : rx_handler 2 false (record r { input = frame }) ≡ rx_handler 0 false receiver
  pub acknowledged : receiver.replies ≡ r.replies ++ (ack_bytes t.seq_num ∷ [])
  pub taken_whole : receiver.input ≡ []

request-IsAnswered :
    (len_1 : ℕ) (info : Bytes) (t : Tx) (r : Rx)
    → r.packet.dle_1 ≡ dle_val
    → max_payload_len ≤ length r.packet.info
    → HasLength 0x00 len_1 info
    → length info ≤ max_payload_len
    → IsAnswered t r (request 0x00 len_1 info t)
unfolding request get_seq_num tc_packet_tx signal_packet send_ack
request-IsAnswered len_1 info t r d room h short = record {
  frame = output_bytes (signal_packet t.seq_num 0x00 len_1 info);
  receiver = accepted r t.seq_num 0x00 len_1 info [];
  numbered = refl;
  framed = refl;
  received =
      ap (λ bs. rx_handler 2 false (record r { input = bs }))
        (sym (append-nil (output_bytes (signal_packet t.seq_num 0x00 len_1 info))))
      ∙ rx_handler-output_bytes 0 r t.seq_num 0x00 len_1 info [] d h (omega (arith, short))
          (omega (arith, short, room));
  acknowledged = replies-accepted r t.seq_num 0x00 len_1 info [];
  taken_whole = refl;
}

-- Every request is received whole and acknowledged under its own number, for all its arguments, if
-- the other side's buffer has room for the longest information, 118 bytes.
pub send-IsAnswered :
    (q : Request) (t : Tx) (r : Rx)
    → r.packet.dle_1 ≡ dle_val
    → max_payload_len ≤ length r.packet.info
    → IsAnswered t r (send q t)
unfolding tsc_dynamic tsc_pretime tsc_switch_strategy tsc_switch tsc_extend tsc_evsp_on tsc_evsp_off
    tsc_5F4C tsc_5F48 tsc_5F44 tsc_5F45 tsc_5F43 tsc_0F42 tsc_5F46 tsc_countdown_on
    tsc_countdown_off tsc_query_firmware_version
send-IsAnswered dynamic t r d room = request-IsAnswered _ _ t r d room (omega arith) (omega arith)
send-IsAnswered pretime t r d room = request-IsAnswered _ _ t r d room (omega arith) (omega arith)
send-IsAnswered switch_strategy t r d room =
    request-IsAnswered _ _ t r d room (omega arith) (omega arith)
send-IsAnswered switch t r d room = request-IsAnswered _ _ t r d room (omega arith) (omega arith)
send-IsAnswered evsp_off t r d room = request-IsAnswered _ _ t r d room (omega arith) (omega arith)
send-IsAnswered query_5F4C t r d room =
    request-IsAnswered _ _ t r d room (omega arith) (omega arith)
send-IsAnswered query_5F48 t r d room =
    request-IsAnswered _ _ t r d room (omega arith) (omega arith)
send-IsAnswered query_0F42 t r d room =
    request-IsAnswered _ _ t r d room (omega arith) (omega arith)
send-IsAnswered firmware_version t r d room =
    request-IsAnswered _ _ t r d room (omega arith) (omega arith)
send-IsAnswered (extend subphase step time) t r d room =
    request-IsAnswered _ _ t r d room (omega arith) (omega arith)
send-IsAnswered (evsp_on subphase) t r d room =
    request-IsAnswered _ _ t r d room (omega arith) (omega arith)
send-IsAnswered (query_5F44 plan_id) t r d room =
    request-IsAnswered _ _ t r d room (omega arith) (omega arith)
send-IsAnswered (query_5F45 plan_id) t r d room =
    request-IsAnswered _ _ t r d room (omega arith) (omega arith)
send-IsAnswered (query_5F43 phase_order) t r d room =
    request-IsAnswered _ _ t r d room (omega arith) (omega arith)
send-IsAnswered (query_5F46 week_day) t r d room =
    request-IsAnswered _ _ t r d room (omega arith) (omega arith)
send-IsAnswered (countdown_on machine_type) t r d room =
    request-IsAnswered _ _ t r d room (omega arith) (omega arith)
send-IsAnswered (countdown_off machine_type) t r d room =
    request-IsAnswered _ _ t r d room (omega arith) (omega arith)
