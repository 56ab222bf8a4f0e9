-- ===== src/Serial/Link/Buffer.antt =====
-- Reads from the stream and writes to the INFO buffer.
use vips_adaptive_traffi.Common.{
  length-drop, ℕ, zero, suc, ◌+◌, ◌-◌, ◌≤◌, ◌<◌, ◌≡◌, refl, ap, sym, ◌∙◌, inl, inr, Bool-cases,
  ◌>>=◌, ltb→lt, Option, some, [], ◌∷◌, ◌++◌, Bytes, length, take, drop, length-append, take-length,
  drop-length, ltb, arith,
}
use mathlib.Core.List.{append_assoc}
use native.Mathlib.Nat.{zero-add, suc-add}
use vips_adaptive_traffi.Serial.Rx.{Rx, read, write_at, read_chunk, chunk_len, read_info}

pub length-write_at : (xs : Bytes) (i : ℕ) (bs : Bytes) → length (write_at xs i bs) ≡ length xs
unfolding write_at
length-write_at [] i bs = refl
length-write_at (x ∷ xs) zero [] = refl
length-write_at (x ∷ xs) zero (b ∷ bs) = ap suc (length-write_at xs zero bs)
length-write_at (x ∷ xs) (suc i) bs = ap suc (length-write_at xs i bs)

write_at-nil : (xs : Bytes) (i : ℕ) → write_at xs i [] ≡ xs
unfolding write_at
write_at-nil [] i = refl
write_at-nil (x ∷ xs) zero = refl
write_at-nil (x ∷ xs) (suc i) = ap (λ r. x ∷ r) (write_at-nil xs i)

-- Two writes, one behind the other, are one.
write_at-append :
    (xs : Bytes) (i : ℕ) (bs cs : Bytes)
    → write_at (write_at xs i bs) (i + length bs) cs ≡ write_at xs i (bs ++ cs)
unfolding write_at
write_at-append [] i bs cs = refl
write_at-append (x ∷ xs) zero [] cs = refl
write_at-append (x ∷ xs) zero (b ∷ bs) cs =
    rw (zero-add) (ap (λ r. b ∷ r) (rw (zero-add) at (write_at-append xs zero bs cs)))
write_at-append (x ∷ xs) (suc i) bs cs = rw suc-add (ap (λ r. x ∷ r) (write_at-append xs i bs cs))

pub take-write_at :
    (xs bs : Bytes) → length bs ≤ length xs → take (length bs) (write_at xs 0 bs) ≡ bs
unfolding write_at
take-write_at xs [] h = refl
take-write_at [] (b ∷ bs) h = absurd (omega arith)
take-write_at (x ∷ xs) (b ∷ bs) h = ap (λ r. b ∷ r) (take-write_at xs bs (omega arith))

-- A read of the bytes in front.
pub read-append :
    (bs rest : Bytes) (n : ℕ) (r : Rx)
    → n ≡ length bs
    → read n (record r { input = bs ++ rest }) ≡ some (bs, record r { input = rest })
unfolding read
read-append bs rest n r h = rw (h, take-length, drop-length) (ground (arith, length-append bs rest))

pub take-append-drop : (n : ℕ) (xs : Bytes) → take n xs ++ drop n xs ≡ xs
take-append-drop zero xs = refl
take-append-drop (suc n) [] = refl
take-append-drop (suc n) (x ∷ xs) = ap (λ r. x ∷ r) (take-append-drop n xs)

length-take : (n : ℕ) (xs : Bytes) → n ≤ length xs → length (take n xs) ≡ n
length-take zero xs h = refl
length-take (suc n) [] h = absurd (omega arith)
length-take (suc n) (x ∷ xs) h = ap suc (length-take n xs (omega arith))

-- The packet and the input of a receiver after `info_len` bytes of information.
abbrev pub with_info : Rx → ℕ → Bytes → Bytes → Rx
with_info r i bs rest = record r {
  packet = record (r.packet) { info = write_at r.packet.info i bs };
  input = rest;
}

read_chunk-append :
    (bs rest : Bytes) (i n : ℕ) (r : Rx)
    → n ≡ length bs
    → read_chunk i n (record r { input = bs ++ rest }) ≡ some (with_info r i bs rest)
unfolding read_chunk
read_chunk-append bs rest i n r h = rw (read-append bs rest n r h)

nil_of_length : (xs : Bytes) → length xs ≡ 0 → xs ≡ []
nil_of_length [] h = refl
nil_of_length (x ∷ xs) h = absurd (omega arith)

-- The bytes in front of the input, cut in two.
split_input : (n : ℕ) (bs rest : Bytes) → bs ++ rest ≡ take n bs ++ (drop n bs ++ rest)
split_input n bs rest =
    ap (λ xs. xs ++ rest) (sym (take-append-drop n bs)) ∙ append_assoc (take n bs) (drop n bs) rest

-- The INFO buffer after a piece and the rest.
with_info_split :
    (r : Rx) (i n : ℕ) (bs rest : Bytes)
    → n ≤ length bs
    → with_info (with_info r i (take n bs) (drop n bs ++ rest)) (i + n) (drop n bs) rest
      ≡ with_info r i bs rest
with_info_split r i n bs rest h =
    ap (λ (xs : Bytes). record r { packet = record (r.packet) { info = xs }; input = rest }) written
  where
    written :
        write_at (write_at r.packet.info i (take n bs)) (i + n) (drop n bs)
        ≡ write_at r.packet.info i bs
    written =
        ap (λ k. write_at (write_at r.packet.info i (take n bs)) (i + k) (drop n bs))
          (sym (length-take n bs h))
        ∙ write_at-append r.packet.info i (take n bs) (drop n bs)
        ∙ ap (λ xs. write_at r.packet.info i xs) (take-append-drop n bs)

chunk_len-le : (k : ℕ) → chunk_len k ≤ k
chunk_len-le k = ground arith

chunk_len-pos : (k : ℕ) → 0 < k → 0 < chunk_len k
chunk_len-pos k h = ground arith

-- One round: a piece of the bytes, then the rest by `next`.
read_round :
    (i n : ℕ) (bs rest : Bytes) (r : Rx) (next : Rx → Option Rx)
    → n ≤ length bs
    → next (with_info r i (take n bs) (drop n bs ++ rest))
      ≡ some (with_info (with_info r i (take n bs) (drop n bs ++ rest)) (i + n) (drop n bs) rest)
    → (read_chunk i n (record r { input = bs ++ rest }) >>= next) ≡ some (with_info r i bs rest)
read_round i n bs rest r next h e =
    ap (λ xs. read_chunk i n (record r { input = xs }) >>= next) (split_input n bs rest)
    ∙ ap (λ o. o >>= next)
        (read_chunk-append (take n bs) (drop n bs ++ rest) i n r (sym (length-take n bs h)))
    ∙ e
    ∙ ap some (with_info_split r i n bs rest h)

-- The loop puts the bytes that it is asked for into INFO, whatever their number.
pub read_info-with_info :
    (fuel info_len i : ℕ) (bs rest : Bytes) (r : Rx)
    → info_len ≡ i + length bs
    → length bs ≤ fuel
    → read_info fuel info_len i (record r { input = bs ++ rest }) ≡ some (with_info r i bs rest)
unfolding read_info
read_info-with_info zero info_len i [] rest r e h = rw write_at-nil
read_info-with_info zero info_len i (b ∷ bs) rest r e h = absurd (omega arith)
read_info-with_info (suc fuel) info_len i bs rest r e h = elim (Bool-cases (ltb i info_len)) [
  | inl more ↦ rw more (
      read_round i n bs rest r (read_info fuel info_len (i + n)) fits (
        read_info-with_info fuel info_len (i + n) (drop n bs) rest
          (with_info r i (take n bs) (drop n bs ++ rest)) (omega (arith, length-drop n bs, fits))
          (omega (arith, length-drop n bs, chunk_len-pos k, ltb→lt i info_len more))))
  | inr done ↦ rw (done, nil_of_length bs (ground arith), write_at-nil)
]
  where
    k : ℕ
    k = info_len - i

    n : ℕ
    n = chunk_len k

    fits : n ≤ length bs
    fits = omega (arith, chunk_len-le k)

pub take_all : (xs : Bytes) → take (length xs) xs ≡ xs
take_all [] = refl
take_all (x ∷ xs) = ap (λ r. x ∷ r) (take_all xs)
