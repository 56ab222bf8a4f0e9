-- ===== src/Serial/Answer.antt =====
-- What the receiving thread of src/traffic_signal_packet_rx.c answers to an information frame.
use vips_adaptive_traffi.Common.{
  ℕ, zero, suc, ◌+◌, ◌-◌, ◌≤◌, ◌<◌, ◌≡◌, ◌≢◌, Bool, refl, sym, ap, ◌∙◌, Option, some, none, [], ◌∷◌,
  ◌++◌, Bytes, length, length-append, length-drop, get_or-take, get_or, bind_some, ◌>>=◌, some_inj,
  Bool-cases, inl, inr, arith, leb, ltb, ◌==◌, if◌then◌else◌, u16, take, drop, true, false,
}
use vips_adaptive_traffi.Serial.Packet.{
  traffic_signal_packet_clean, error_length, error_cks, front_bytes, check_sum, be16, header_len,
}
use vips_adaptive_traffi.Serial.Rx.{
  Rx, read, read_header, read_trailer, read_cks, read_chunk, read_info, chunk_len, send_ack,
  send_nak, write_at, dispatch, finish_info, recv_info,
}

-- Reading answers nothing and calls nobody.
record SameOutput (r r' : Rx) : Type 0 where
  pub replies_kept : r'.replies ≡ r.replies
  pub calls_kept : r'.calls ≡ r.calls

SameOutput-trans : {r s t : Rx} → SameOutput r s → SameOutput s t → SameOutput r t
SameOutput-trans a b = record {
  replies_kept = b.replies_kept ∙ a.replies_kept;
  calls_kept = b.calls_kept ∙ a.calls_kept;
}

none_ne : {A : Type 0} {a : A} → none ≢ some a
none_ne h = cc

read-SameOutput : (n : ℕ) (r : Rx) (p : Bytes × Rx) → read n r ≡ some p → SameOutput r p.1
unfolding read
read-SameOutput n r p h = elim (Bool-cases (leb n (length r.input))) [
  | inl e ↦
      let taken : (take n r.input, record r { input = drop n r.input }) ≡ p =
        some_inj (sym (rw (e, read) refl) ∙ h) in
      rw (← taken) record { replies_kept = refl; calls_kept = refl }
  | inr e ↦ absurd (none_ne (sym (rw (e, read) refl) ∙ h))
]

-- A frame has one meaning: at most one handler is called.
dispatch_le : (info : Bytes) → length (dispatch info) ≤ 1
unfolding dispatch
dispatch_le info = ground arith

read_header-SameOutput : (r r' : Rx) → read_header r ≡ some r' → SameOutput r r'
unfolding read_header
read_header-SameOutput r r' h =
    let (p, e, rest) = bind_some (read 5 r) _ h in
    let k = read-SameOutput 5 r p e in
    rw (← some_inj rest) record { replies_kept = k.replies_kept; calls_kept = k.calls_kept }

read_trailer-SameOutput : (r r' : Rx) → read_trailer r ≡ some r' → SameOutput r r'
unfolding read_trailer
read_trailer-SameOutput r r' h =
    let (p, e, rest) = bind_some (read 2 r) _ h in
    let k = read-SameOutput 2 r p e in
    rw (← some_inj rest) record { replies_kept = k.replies_kept; calls_kept = k.calls_kept }

read_cks-SameOutput : (r r' : Rx) → read_cks r ≡ some r' → SameOutput r r'
unfolding read_cks
read_cks-SameOutput r r' h =
    let (p, e, rest) = bind_some (read 1 r) _ h in
    let k = read-SameOutput 1 r p e in
    rw (← some_inj rest) record { replies_kept = k.replies_kept; calls_kept = k.calls_kept }

read_chunk-SameOutput : (i n : ℕ) (r r' : Rx) → read_chunk i n r ≡ some r' → SameOutput r r'
unfolding read_chunk
read_chunk-SameOutput i n r r' h =
    let (p, e, rest) = bind_some (read n r) _ h in
    let k = read-SameOutput n r p e in
    rw (← some_inj rest) record { replies_kept = k.replies_kept; calls_kept = k.calls_kept }

-- A loop that goes on or ends.
goes_on :
    (b : Bool) {o : Option Rx} {r r' : Rx}
    → (if b then o else some r) ≡ some r'
    → (o ≡ some r' → SameOutput r r')
    → SameOutput r r'
goes_on true h k = k h
goes_on false h k = rw (← some_inj h) record { replies_kept = refl; calls_kept = refl }

read_info-SameOutput : (fuel n i : ℕ) (r r' : Rx) → read_info fuel n i r ≡ some r' → SameOutput r r'
unfolding read_info
read_info-SameOutput zero n i r r' h =
    rw (← some_inj h) record { replies_kept = refl; calls_kept = refl }
read_info-SameOutput (suc fuel) n i r r' h = goes_on (ltb i n) h (λ q.
    let (r1, e, rest) = bind_some (read_chunk i (chunk_len (n - i)) r) _ q in
    SameOutput-trans (read_chunk-SameOutput i _ r r1 e) (read_info-SameOutput fuel n _ r1 r' rest))

-- One answer more, and at most one call more.
pub record IsAnswer (r r' : Rx) : Type 0 where
  pub reply : Bytes
  pub one_reply : r'.replies ≡ r.replies ++ (reply ∷ [])
  pub one_call : length r'.calls ≤ length r.calls + 1

-- Refused, or acknowledged and handed over.
nak-IsAnswer : {r r' : Rx} (err : ℕ) → SameOutput r r' → IsAnswer r (send_nak err r')
unfolding send_nak
nak-IsAnswer {r} {r'} err k = record {
  reply = answer;
  one_reply = ap (λ l. l ++ (answer ∷ [])) k.replies_kept;
  one_call = omega (arith, ap length k.calls_kept);
}
  where
    answer : Bytes
    answer =
        front_bytes (send_nak err r').packet ++ (err ∷ check_sum (send_nak err r').packet 1 ∷ [])

ack-IsAnswer :
    {r r' : Rx} (info : Bytes)
    → SameOutput r r'
    → IsAnswer r (record (send_ack r') { calls = r'.calls ++ dispatch info })
unfolding send_ack
ack-IsAnswer {r} {r'} info k = record {
  reply = answer;
  one_reply = ap (λ l. l ++ (answer ∷ [])) k.replies_kept;
  one_call =
      omega
        (arith, ap length k.calls_kept, length-append r'.calls (dispatch info), dispatch_le info);
}
  where
    answer : Bytes
    answer = front_bytes (send_ack r').packet ++ (check_sum (send_ack r').packet 0 ∷ [])

choice-IsAnswer :
    (b : Bool) {r s t : Rx} → IsAnswer r s → IsAnswer r t → IsAnswer r (if b then s else t)
choice-IsAnswer true h k = h
choice-IsAnswer false h k = k

finish_with :
    (b : Bool) {r s r' : Rx} {o : Option Rx}
    → (if b then some s else o) ≡ some r'
    → IsAnswer r s
    → (o ≡ some r' → IsAnswer r r')
    → IsAnswer r r'
finish_with true h k l = rw (← some_inj h) k
finish_with false h k l = l h

finish_info-IsAnswer :
    (n : ℕ) (r s r' : Rx) → SameOutput r s → finish_info n s ≡ some r' → IsAnswer r r'
unfolding finish_info
finish_info-IsAnswer n r s r' k h =
    finish_with (error_length s.packet == 1) h (nak-IsAnswer 0x8 k) (λ q.
      let (s1, e, rest) = bind_some (read_cks s) _ q in
      let k1 = SameOutput-trans k (read_cks-SameOutput s s1 e) in
      rw (← some_inj rest) (
        choice-IsAnswer (error_cks s1.packet (check_sum s1.packet n) == 1) (nak-IsAnswer 0x1 k1)
          (ack-IsAnswer s1.packet.info k1)))

received-IsAnswer : (r r' : Rx) → recv_info r ≡ some r' → IsAnswer r r'
unfolding recv_info
received-IsAnswer r r' h =
    let (r1, e1, h1) = bind_some (read_header r) _ h in
    let n = u16 (be16 r1.packet.len_0 r1.packet.len_1 + 65536 - header_len) in
    let (r2, e2, h2) = bind_some (read_info n n 0 r1) _ h1 in
    let (r3, e3, h3) = bind_some (read_trailer r2) _ h2 in
    let k =
      SameOutput-trans (read_header-SameOutput r r1 e1) (
        SameOutput-trans (read_info-SameOutput n n 0 r1 r2 e2)
          (read_trailer-SameOutput r2 r3 e3)) in
    finish_info-IsAnswer n r r3 r' k h3

read-total :
    (n : ℕ) (r : Rx)
    → n ≤ length r.input
    → read n r ≡ some (take n r.input, record r { input = drop n r.input })
unfolding read
read-total n r h = let there : leb n (length r.input) ≡ true = ground (arith, h) in rw there refl

-- `r'` has `n` bytes of input less.
abbrev Takes : ℕ → Rx → Rx → Type 0
Takes n r r' = length r'.input + n ≡ length r.input

drop-Takes : (n : ℕ) (r : Rx) → n ≤ length r.input → length (drop n r.input) + n ≡ length r.input
drop-Takes n r h = omega (arith, length-drop n r.input, h)

read_chunk-total :
    (i n : ℕ) (r : Rx)
    → n ≤ length r.input
    → (r' : Rx) × (read_chunk i n r ≡ some r') × Takes n r r'
unfolding read_chunk
read_chunk-total i n r h = (
  record r {
    input = drop n r.input;
    packet = record (r.packet) { info = write_at r.packet.info i (take n r.input) };
  },
  rw (read-total n r h) refl,
  drop-Takes n r h,
)

chunk_len-some : (k : ℕ) → 0 < k → (0 < chunk_len k) × (chunk_len k ≤ k)
chunk_len-some k h = ground (arith, h)

read_info-total :
    (fuel n i : ℕ) (r : Rx)
    → n ≤ i + fuel
    → n - i ≤ length r.input
    → (r' : Rx) × (read_info fuel n i r ≡ some r') × Takes (n - i) r r'
unfolding read_info
read_info-total zero n i r h k = (r, refl, omega (arith, h))
read_info-total (suc fuel) n i r h k = elim (Bool-cases (ltb i n)) [
  | inr done ↦ (r, rw (read_info, done) refl, ground (arith, done))
  | inl more ↦
      let some_ = chunk_len-some (n - i) (ground (arith, more)) in
      let c = chunk_len (n - i) in
      let (r1, is1, left1) = read_chunk-total i c r (omega (arith, some_, k)) in
      let (r', is', left') =
        read_info-total fuel n (i + c) r1 (omega (arith, some_, h))
          (omega (arith, some_, left1, k)) in
      (r', rw (read_info, more) (rw is1 is'), omega (arith, some_, left1, left'))
]

-- The packet length of the header that comes.
abbrev pub packet_len : Rx → ℕ
packet_len r = be16 (get_or r.input 3 0) (get_or r.input 4 0)

read_header-total :
    (r : Rx)
    → 5 ≤ length r.input
    → (r' : Rx) × (read_header r ≡ some r')
      × Takes 5 r r'
      × (be16 r'.packet.len_0 r'.packet.len_1 ≡ packet_len r)
unfolding read_header
read_header-total r h =
    let bs = take 5 r.input in
    (
      record r {
        input = drop 5 r.input;
        packet = record (traffic_signal_packet_clean r.packet) {
          seq = get_or bs 0 0;
          addr_0 = get_or bs 1 0;
          addr_1 = get_or bs 2 0;
          len_0 = get_or bs 3 0;
          len_1 = get_or bs 4 0;
        };
      },
      rw (read-total 5 r h) refl,
      drop-Takes 5 r h,
      rw (get_or-take 5 3 r.input 0 (omega arith), get_or-take 5 4 r.input 0 (omega arith)) refl,
    )

read_trailer-total :
    (r : Rx) → 2 ≤ length r.input → (r' : Rx) × (read_trailer r ≡ some r') × Takes 2 r r'
unfolding read_trailer
read_trailer-total r h =
    let bs = take 2 r.input in
    (
      record r {
        input = drop 2 r.input;
        packet = record (r.packet) { dle_2 = get_or bs 0 0; etx = get_or bs 1 0 };
      },
      rw (read-total 2 r h) refl,
      drop-Takes 2 r h,
    )

read_cks-total : (r : Rx) → 1 ≤ length r.input → (r' : Rx) × (read_cks r ≡ some r')
unfolding read_cks
read_cks-total r h = (
  record r {
    input = drop 1 r.input;
    packet = record (r.packet) { cks = get_or (take 1 r.input) 0 0 };
  },
  rw (read-total 1 r h) refl,
)

finish_info-total : (n : ℕ) (r : Rx) → 1 ≤ length r.input → (r' : Rx) × (finish_info n r ≡ some r')
unfolding finish_info
finish_info-total n r h =
    let (r1, is) = read_cks-total r h in
    elim (Bool-cases (error_length r.packet == 1)) [
      | inl bad ↦ (send_nak 0x8 r, rw bad refl)
      | inr good ↦ (
        if error_cks r1.packet (check_sum r1.packet n) == 1
            then send_nak 0x1 r1
            else record (send_ack r1) { calls = r1.calls ++ dispatch r1.packet.info },
        rw good (rw is refl),
      )
    ]

bind_of :
    {o : Option Rx} {a b : Rx} (f : Rx → Option Rx) → o ≡ some a → f a ≡ some b → (o >>= f) ≡ some b
bind_of f e h = ap (λ p. p >>= f) e ∙ h

from_trailer :
    (n : ℕ) (r : Rx)
    → 3 ≤ length r.input
    → (r' : Rx) × ((read_trailer r >>= λ r3. finish_info n r3) ≡ some r')
from_trailer n r h =
    let (r3, is, left) = read_trailer-total r (omega (arith, h)) in
    let (r', does) = finish_info-total n r3 (omega (arith, h, left)) in
    (r', bind_of (λ r3. finish_info n r3) is does)

from_info :
    (n : ℕ) (r : Rx)
    → n + 3 ≤ length r.input
    → (r' : Rx) × ((read_info n n 0 r >>= λ r2. read_trailer r2 >>= λ r3. finish_info n r3)
        ≡ some r')
from_info n r h =
    let (r2, is, left) = read_info-total n n 0 r (omega arith) (omega (arith, h)) in
    let (r', does) = from_trailer n r2 (omega (arith, h, left)) in
    (r', bind_of (λ r2. read_trailer r2 >>= λ r3. finish_info n r3) is does)

recv_info-total :
    (r : Rx)
    → 10 ≤ packet_len r
    → packet_len r ≤ 128
    → packet_len r ≤ length r.input + 2
    → (r' : Rx) × (recv_info r ≡ some r')
unfolding recv_info
recv_info-total r low high come =
    let (r1, is, left, len) = read_header-total r (omega (arith, low, come)) in
    let n = u16 (be16 r1.packet.len_0 r1.packet.len_1 + 65536 - header_len) in
    let n_is : n + 10 ≡ packet_len r = omega (arith, len, low, high) in
    let (r', does) = from_info n r1 (omega (arith, n_is, left, come)) in (r', rw is does)

-- An information frame of a packet length from 10 to 128, all bytes of which have come, is received to
-- its end and answered exactly once, and leads to at most one call of a handler, whatever its bytes are.
-- (The buffer INFO has room for the information of such a frame; the code does not test the length.)
pub recv_info-IsAnswer :
    (r : Rx)
    → 10 ≤ packet_len r
    → packet_len r ≤ 128
    → packet_len r ≤ length r.input + 2
    → (r' : Rx) × (recv_info r ≡ some r') × IsAnswer r r'
recv_info-IsAnswer r low high come =
    let (r', is) = recv_info-total r low high come in (r', is, received-IsAnswer r r' is)
