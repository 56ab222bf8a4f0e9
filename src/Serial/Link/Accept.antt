-- ===== src/Serial/Link/Accept.antt =====
-- A frame that `TC_packet_tx` puts together, read back by the receiving side of the protocol.
use vips_adaptive_traffi.Common.{
  ℕ, ◌+◌, ◌-◌, ◌≤◌, ◌<◌, ◌≡◌, ap, ◌∙◌, some, [], ◌∷◌, ◌++◌, Bytes, length, u16, arith, ==_refl,
}
use mathlib.Core.List.{append_assoc}
use vips_adaptive_traffi.Serial.Packet.{
  Packet, be16, dle_val, stx_val, etx_val, ack_val, addr_val, front_bytes, header_len, check_sum,
  traffic_signal_packet_clean,
}
use vips_adaptive_traffi.Serial.Tx.{output_bytes, signal_packet}
use vips_adaptive_traffi.Serial.Rx.{
  Rx, write_at, read_header, read_trailer, read_cks, send_ack, dispatch, finish_info, recv_info,
}
use vips_adaptive_traffi.Serial.Link.Buffer.{
  read-append, with_info, read_info-with_info, take-write_at, take_all,
}

-- `read_header` takes the five bytes behind DLE and TYPE.
pub read_header-cons :
    (s a b c d : ℕ) (rest : Bytes) (r : Rx)
    → read_header (record r { input = s ∷ a ∷ b ∷ c ∷ d ∷ rest })
      ≡ some (record r {
        packet = record (traffic_signal_packet_clean r.packet) {
          seq = s;
          addr_0 = a;
          addr_1 = b;
          len_0 = c;
          len_1 = d;
        };
        input = rest;
      })
unfolding read_header
read_header-cons s a b c d rest r = rw (read-append (s ∷ a ∷ b ∷ c ∷ d ∷ []) rest 5 r (omega arith))

read_trailer-cons :
    (a b : ℕ) (rest : Bytes) (r : Rx)
    → read_trailer (record r { input = a ∷ b ∷ rest })
      ≡ some (record r { packet = record (r.packet) { dle_2 = a; etx = b }; input = rest })
unfolding read_trailer
read_trailer-cons a b rest r = rw (read-append (a ∷ b ∷ []) rest 2 r (omega arith))

pub read_cks-cons :
    (a : ℕ) (rest : Bytes) (r : Rx)
    → read_cks (record r { input = a ∷ rest })
      ≡ some (record r { packet = record (r.packet) { cks = a }; input = rest })
unfolding read_cks
read_cks-cons a rest r = rw (read-append (a ∷ []) rest 1 r (omega arith))

-- The length field of a frame with that many information bytes.
abbrev pub HasLength : ℕ → ℕ → Bytes → Type 0
HasLength len_0 len_1 info = be16 len_0 len_1 ≡ length info + header_len

info_len-eq :
    (len_0 len_1 : ℕ) (info : Bytes)
    → HasLength len_0 len_1 info
    → length info < 65536
    → u16 (be16 len_0 len_1 + 65536 - header_len) ≡ length info
info_len-eq len_0 len_1 info h lt = omega arith

-- The acknowledgement of the frame with a sequence number.
abbrev pub ack_packet : ℕ → Bytes → Packet
ack_packet seq info = record {
  cks = 0;
  dle_1 = dle_val;
  type = ack_val;
  seq = seq;
  addr_0 = addr_val;
  addr_1 = addr_val;
  len_0 = 0x00;
  len_1 = 0x08;
  dle_2 = 0;
  etx = 0;
  info = info;
}

abbrev pub ack_bytes : ℕ → Bytes
ack_bytes seq = front_bytes (ack_packet seq []) ++ (check_sum (ack_packet seq []) 0 ∷ [])

-- The receiver after `TYPE` has been read and the frame's bytes have been taken in.
abbrev pub taken : Rx → ℕ → ℕ → ℕ → Bytes → Bytes → Rx
taken r seq len_0 len_1 info rest = record r {
  packet = record (signal_packet seq len_0 len_1 (write_at r.packet.info 0 info)) {
    cks = check_sum (signal_packet seq len_0 len_1 info) (length info);
  };
  input = rest;
}

-- The checksum reads the information alone out of the buffer.
check_sum-write_at :
    (buf info : Bytes) (seq len_0 len_1 cks : ℕ)
    → length info ≤ length buf
    → check_sum
        (record (signal_packet seq len_0 len_1 (write_at buf 0 info)) { cks = cks })
        (length info)
      ≡ check_sum (signal_packet seq len_0 len_1 info) (length info)
unfolding check_sum signal_packet
check_sum-write_at buf info seq len_0 len_1 cks fits = rw (take-write_at buf info fits, take_all)

-- A frame that is whole is acknowledged, and its information goes to the handlers.
finish_info-taken :
    (r : Rx) (seq len_0 len_1 cks_0 : ℕ) (info rest : Bytes)
    → length info ≤ length r.packet.info
    → finish_info (length info) (record (taken r seq len_0 len_1 info rest) {
      packet = record (signal_packet seq len_0 len_1 (write_at r.packet.info 0 info)) {
        cks = cks_0;
      };
      input = check_sum (signal_packet seq len_0 len_1 info) (length info) ∷ rest;
    })
      ≡ some (record (send_ack (taken r seq len_0 len_1 info rest)) {
        calls = r.calls ++ dispatch (write_at r.packet.info 0 info);
      })
unfolding finish_info signal_packet
finish_info-taken r seq len_0 len_1 cks_0 info rest fits =
    rw
      (read_cks-cons cks rest (record r {
        packet = record (signal_packet seq len_0 len_1 (write_at r.packet.info 0 info)) {
          cks = cks_0;
        };
      }))
      (rw same (rw (==_refl cks)))
  where
    cks : ℕ
    cks = check_sum (signal_packet seq len_0 len_1 info) (length info)

    same : check_sum (taken r seq len_0 len_1 info rest).packet (length info) ≡ cks
    same = check_sum-write_at r.packet.info info seq len_0 len_1 cks fits

-- The frame of a request, without its first two bytes, which the receiving loop reads.
abbrev pub behind_type : ℕ → ℕ → ℕ → Bytes → Bytes → Bytes
behind_type seq len_0 len_1 info rest =
    seq
    ∷ addr_val
    ∷ addr_val
    ∷ len_0
    ∷ len_1
    ∷ (info
        ++ (dle_val
            ∷ etx_val
            ∷ check_sum (signal_packet seq len_0 len_1 info) (length info)
            ∷ rest))

-- `TC_packet_tx` puts DLE and STX in front of those bytes, if the length field is right.
pub output_bytes-signal_packet :
    (seq len_0 len_1 : ℕ) (info rest : Bytes)
    → HasLength len_0 len_1 info
    → output_bytes (signal_packet seq len_0 len_1 info) ++ rest
      ≡ dle_val ∷ stx_val ∷ behind_type seq len_0 len_1 info rest
unfolding output_bytes signal_packet
output_bytes-signal_packet seq len_0 len_1 info rest h = rw (eq) (rw (take_all info, append_assoc))
  where
    eq : be16 len_0 len_1 - header_len ≡ length info
    eq = omega arith

pub recv_info-taken :
    (r : Rx) (seq len_0 len_1 : ℕ) (info rest : Bytes)
    → r.packet.dle_1 ≡ dle_val
    → r.packet.type ≡ stx_val
    → HasLength len_0 len_1 info
    → length info < 65526
    → length info ≤ length r.packet.info
    → recv_info (record r { input = behind_type seq len_0 len_1 info rest })
      ≡ some (record (send_ack (taken r seq len_0 len_1 info rest)) {
        calls = r.calls ++ dispatch (write_at r.packet.info 0 info);
      })
unfolding recv_info signal_packet traffic_signal_packet_clean
recv_info-taken r seq len_0 len_1 info rest d t h lt fits =
    rw (read_header-cons seq addr_val addr_val len_0 len_1 _ r) (
      rw (info_len-eq len_0 len_1 info h (omega arith)) (
        rw (read_info-with_info (length info) (length info) 0 info _ r1 (omega arith) (omega arith))
          (rw (read_trailer-cons dle_val etx_val (cks ∷ rest) r2) (
            ap (finish_info (length info)) same
            ∙ finish_info-taken r seq len_0 len_1 r.packet.cks info rest fits))))
  where
    cks : ℕ
    cks = check_sum (signal_packet seq len_0 len_1 info) (length info)

    r1 : Rx
    r1 = record r {
      packet = record (traffic_signal_packet_clean r.packet) {
        seq = seq;
        addr_0 = addr_val;
        addr_1 = addr_val;
        len_0 = len_0;
        len_1 = len_1;
      };
    }

    r2 : Rx
    r2 = with_info r1 0 info (dle_val ∷ etx_val ∷ cks ∷ rest)

    same :
        record r2 {
          packet = record (r2.packet) { dle_2 = dle_val; etx = etx_val };
          input = cks ∷ rest;
        }
        ≡ record (taken r seq len_0 len_1 info rest) {
          packet = record (signal_packet seq len_0 len_1 (write_at r.packet.info 0 info)) {
            cks = r.packet.cks;
          };
          input = cks ∷ rest;
        }
    same = λ i. record r2 {
      packet = record (r2.packet) { dle_1 = d i; type = t i; dle_2 = dle_val; etx = etx_val };
      input = cks ∷ rest;
    }
