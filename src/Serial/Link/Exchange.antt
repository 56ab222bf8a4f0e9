-- ===== src/Serial/Link/Exchange.antt =====
-- A frame from the sender through the receiving loop, and its acknowledgement on the way back.
use vips_adaptive_traffi.Common.{
  ℕ, suc, ◌≤◌, ◌<◌, ◌≡◌, refl, ap, ◌∙◌, some, [], ◌∷◌, ◌++◌, Bytes, length, Bool, true, false, ◌==◌,
  none, arith, ==_refl, Option, ◌>>=◌,
}
use vips_adaptive_traffi.Serial.Packet.{
  dle_val, stx_val, ack_val, addr_val, check_sum, traffic_signal_packet_clean,
}
use vips_adaptive_traffi.Serial.Tx.{output_bytes, signal_packet}
use vips_adaptive_traffi.Serial.Rx.{
  Rx, read, write_at, send_ack, dispatch, rx_escaped, rx_byte, rx_handler, recv_ack,
}
use vips_adaptive_traffi.Serial.Link.Buffer.{read-append}
use vips_adaptive_traffi.Serial.Link.Accept.{
  HasLength, behind_type, output_bytes-signal_packet, recv_info-taken, taken, read_header-cons,
  read_cks-cons, ack_bytes, ack_packet,
}

-- The receiver after a whole frame: it has answered with an acknowledgement of that sequence
-- number, and the handlers have been called on the buffer that starts with the information.
abbrev pub accepted : Rx → ℕ → ℕ → ℕ → Bytes → Bytes → Rx
accepted r seq len_0 len_1 info rest = record (send_ack (taken r seq len_0 len_1 info rest)) {
  calls = r.calls ++ dispatch (write_at r.packet.info 0 info);
}

read-cons :
    (b : ℕ) (rest : Bytes) (r : Rx)
    → read 1 (record r { input = b ∷ rest }) ≡ some (b ∷ [], record r { input = rest })
read-cons b rest r = read-append (b ∷ []) rest 1 r (omega arith)

rx_handler-cons :
    (fuel b : ℕ) (flag : Bool) (rest : Bytes) (r : Rx)
    → rx_handler (suc fuel) flag (record r { input = b ∷ rest })
      ≡ (rx_byte flag b (record r { input = rest }) >>= λ p. rx_handler fuel p.0 p.1)
unfolding rx_handler
rx_handler-cons fuel b flag rest r = rw (read-cons b rest r, rx_handler)

bind_unescaped :
    (fuel : ℕ) (o : Option Rx)
    → ((o >>= λ r. some (false, r)) >>= λ (p : Bool × Rx). rx_handler fuel p.0 p.1)
      ≡ (o >>= rx_handler fuel false)
bind_unescaped fuel none = refl
bind_unescaped fuel (some r) = refl

-- The loop reads DLE and the type byte, and hands over.
rx_handler-escape :
    (fuel b : ℕ) (rest : Bytes) (r : Rx)
    → (b == dle_val) ≡ false
    → rx_handler (suc (suc fuel)) false (record r { input = dle_val ∷ b ∷ rest })
      ≡ (rx_escaped b (record r { input = rest }) >>= rx_handler fuel false)
unfolding rx_byte
rx_handler-escape fuel b rest r h =
    rx_handler-cons (suc fuel) dle_val false (b ∷ rest) r
    ∙ rx_handler-cons fuel b true rest r
    ∙ rw h (bind_unescaped fuel (rx_escaped b (record r { input = rest })))

-- A request of `TC_packet_tx` whose length field is right, received by the other side of the
-- protocol from an idle loop, is acknowledged and handed to the handlers, and the loop goes on
-- behind it. The information is below 65526 bytes long and fits the receiver's buffer INFO.
pub rx_handler-output_bytes :
    (fuel : ℕ) (r : Rx) (seq len_0 len_1 : ℕ) (info rest : Bytes)
    → r.packet.dle_1 ≡ dle_val
    → HasLength len_0 len_1 info
    → length info < 65526
    → length info ≤ length r.packet.info
    → rx_handler
        (suc (suc fuel))
        false
        (record r { input = output_bytes (signal_packet seq len_0 len_1 info) ++ rest })
      ≡ rx_handler fuel false (accepted r seq len_0 len_1 info rest)
unfolding rx_escaped
rx_handler-output_bytes fuel r seq len_0 len_1 info rest d h lt fits =
    ap (λ bs. rx_handler (suc (suc fuel)) false (record r { input = bs }))
      (output_bytes-signal_packet seq len_0 len_1 info rest h)
    ∙ rx_handler-escape fuel stx_val (behind_type seq len_0 len_1 info rest) r refl
    ∙ ap (λ o. o >>= rx_handler fuel false)
        (recv_info-taken (record r { packet = record (r.packet) { type = stx_val } }) seq len_0
          len_1 info rest d refl h lt fits)

-- The receiver behind an acknowledgement.
abbrev acked : Rx → ℕ → Bytes → Rx
acked r seq rest = record r {
  packet = record (ack_packet seq r.packet.info) {
    cks = check_sum (ack_packet seq []) 0;
    dle_1 = r.packet.dle_1;
  };
  ack_seq = some seq;
  input = rest;
}

recv_ack-acked :
    (r : Rx) (seq : ℕ) (rest : Bytes)
    → r.packet.dle_1 ≡ dle_val
    → recv_ack (record r {
      packet = record (r.packet) { type = ack_val };
      input = seq ∷ addr_val ∷ addr_val ∷ 0x00 ∷ 0x08 ∷ check_sum (ack_packet seq []) 0 ∷ rest;
    })
      ≡ some (acked r seq rest)
unfolding recv_ack traffic_signal_packet_clean
recv_ack-acked r seq rest d =
    rw
      (read_header-cons seq addr_val addr_val 0x00 0x08 (cks ∷ rest)
        (record r { packet = record (r.packet) { type = ack_val } }))
      (rw (read_cks-cons cks rest r1) (rw same (rw (==_refl cks))))
  where
    cks : ℕ
    cks = check_sum (ack_packet seq []) 0

    r1 : Rx
    r1 = record r {
      packet = record (ack_packet seq r.packet.info) { cks = r.packet.cks; dle_1 = r.packet.dle_1 };
    }

    same : check_sum (acked r seq rest).packet 0 ≡ cks
    same = unfold check_sum in λ i. check_sum (record (ack_packet seq []) { dle_1 = d i }) 0

-- The bytes of an acknowledgement, as `send_ack` writes them for a frame taken in: the other side
-- reads them back, and takes the sequence number of the frame that it had sent. It calls no
-- handler and answers nothing.
pub rx_handler-ack :
    (fuel : ℕ) (r : Rx) (seq : ℕ) (rest : Bytes)
    → r.packet.dle_1 ≡ dle_val
    → (r' : Rx) × (rx_handler (suc (suc fuel)) false (record r { input = ack_bytes seq ++ rest })
        ≡ rx_handler fuel false r')
      × (r'.ack_seq ≡ some seq)
      × (r'.input ≡ rest)
      × (r'.calls ≡ r.calls)
      × (r'.replies ≡ r.replies)
unfolding rx_escaped
rx_handler-ack fuel r seq rest d = (acked r seq rest, received, refl, refl, refl, refl)
  where
    received :
        rx_handler (suc (suc fuel)) false (record r { input = ack_bytes seq ++ rest })
        ≡ rx_handler fuel false (acked r seq rest)
    received =
        rx_handler-escape fuel ack_val _ r refl
        ∙ ap (λ o. o >>= rx_handler fuel false) (recv_ack-acked r seq rest d)

-- What `send_ack` writes for a frame taken in is that acknowledgement.
pub replies-accepted :
    (r : Rx) (seq len_0 len_1 : ℕ) (info rest : Bytes)
    → (accepted r seq len_0 len_1 info rest).replies ≡ r.replies ++ (ack_bytes seq ∷ [])
unfolding send_ack signal_packet traffic_signal_packet_clean check_sum
replies-accepted r seq len_0 len_1 info rest = refl
