-- ===== src/Serial/Tests.antt =====
-- A request for the running status through the link.
use vips_adaptive_traffi.Common.{
  ◌≡◌, refl, some, none, false, [], ◌∷◌, ◌++◌, replicate, arith, Bytes,
}
use vips_adaptive_traffi.Serial.Packet.{dle_val}
use vips_adaptive_traffi.Serial.Tx.{output_bytes, signal_packet}
use vips_adaptive_traffi.Serial.Rx.{Rx, rx_handler, recv_info}
use vips_adaptive_traffi.Serial.Link.Exchange.{accepted, rx_handler-output_bytes}
use vips_adaptive_traffi.Serial.Tx.{Tx}
use vips_adaptive_traffi.Serial.Requests.{IsAnswered, send, extend, send-IsAnswered}
use vips_adaptive_traffi.Serial.Answer.{IsAnswer, recv_info-IsAnswer}

abbrev idle_rx : Rx
idle_rx = record {
  packet = record {
    cks = 0;
    dle_1 = dle_val;
    type = 0;
    seq = 0;
    addr_0 = 0;
    addr_1 = 0;
    len_0 = 0;
    len_1 = 0;
    dle_2 = 0;
    etx = 0;
    info = replicate 118 0;
  };
  ack_seq = none;
  input = [];
  replies = [];
  calls = [];
}

abbrev status_query : Bytes
status_query = 0x5F ∷ 0x4C ∷ []

rx_handler-output_bytes_example :
    rx_handler 12 false
      (record idle_rx { input = output_bytes (signal_packet 7 0x00 0x0C status_query) ++ [] })
    ≡ rx_handler 10 false (accepted idle_rx 7 0x00 0x0C status_query [])
rx_handler-output_bytes_example =
    rx_handler-output_bytes 10 idle_rx 7 0x00 0x0C status_query [] refl (omega arith) (omega arith)
      (omega arith)

abbrev idle_tx : Tx
idle_tx = record { seq_num = 7; written = [] }

send-IsAnswered_example : IsAnswered idle_tx idle_rx (send (extend 1 1 40) idle_tx)
send-IsAnswered_example = send-IsAnswered (extend 1 1 40) idle_tx idle_rx refl (omega arith)

-- A frame with a wrong checksum, behind its first two bytes.
abbrev broken_rx : Rx
broken_rx = record idle_rx {
  input = 7 ∷ 0xFF ∷ 0xFF ∷ 0x00 ∷ 0x0C ∷ 0x5F ∷ 0x4C ∷ 0xAA ∷ 0xCC ∷ 0x00 ∷ [];
}

recv_info-IsAnswer_example : (r' : Rx) × (recv_info broken_rx ≡ some r') × IsAnswer broken_rx r'
recv_info-IsAnswer_example = recv_info-IsAnswer broken_rx (omega arith) (omega arith) (omega arith)
