-- ===== src/MsgBuf/Fields.antt =====
-- Numbers written to a message buffer one after the other, and read back in that order.
use vips_adaptive_traffi.Common.{
  ℕ, zero, suc, ◌+◌, ◌≤◌, ◌<◌, ◌≡◌, refl, ap, ◌∙◌, List, [], ◌∷◌, Bytes, all, map, length, ltb,
  Bool, true, ltb→lt, and_true, get_or, set, arith, u8, get_or-set_self, get_or-set_ne, length-set,
}
use vips_adaptive_traffi.MsgBuf.Bytes.{
  MsgBuf, put_bytes, write, skip, at_index, read_uint8_t, read_uint16_t, read_uint32_t,
  write_uint8_t, write_uint16_t, write_uint32_t, uint16_t2byte, uint32_t2byte, byte2uint16_t,
  byte2uint32_t,
}

-- A number of one, two or four bytes.
pub data Field : Type 0 where
  field_8 field_16 field_32 : ℕ → Field

pub data Width : Type 0 where
  byte word long_word : Width

abbrev pub kind : Field → Width
kind (field_8 n) = byte
kind (field_16 n) = word
kind (field_32 n) = long_word

-- The number is in the range of its type.
abbrev pub fits : Field → Bool
fits (field_8 n) = ltb n 256
fits (field_16 n) = ltb n 65536
fits (field_32 n) = ltb n 4294967296

abbrev pub width : Field → ℕ
width (field_8 n) = 1
width (field_16 n) = 2
width (field_32 n) = 4

abbrev pub widths : List Field → ℕ
widths [] = 0
widths (f ∷ fs) = width f + widths fs

unfoldable pub write_field : Field → MsgBuf → MsgBuf
write_field (field_8 n) m = write_uint8_t n m
write_field (field_16 n) m = write_uint16_t n m
write_field (field_32 n) m = write_uint32_t n m

unfoldable pub write_fields : List Field → MsgBuf → MsgBuf
write_fields [] m = m
write_fields (f ∷ fs) m = write_fields fs (write_field f m)

unfoldable pub read_field : Width → MsgBuf → Field × MsgBuf
read_field byte m = (field_8 (read_uint8_t m).0, (read_uint8_t m).1)
read_field word m = (field_16 (read_uint16_t m).0, (read_uint16_t m).1)
read_field long_word m = (field_32 (read_uint32_t m).0, (read_uint32_t m).1)

unfoldable pub read_fields : List Width → MsgBuf → List Field
read_fields [] m = []
read_fields (w ∷ ws) m = (read_field w m).0 ∷ read_fields ws (read_field w m).1

bytes_of : Field → Bytes
bytes_of (field_8 n) = u8 n ∷ []
bytes_of (field_16 n) = uint16_t2byte n
bytes_of (field_32 n) = uint32_t2byte n

length-put_bytes : (bs : Bytes) (i : ℕ) (c : Bytes) → length (put_bytes bs i c) ≡ length c
unfolding put_bytes
length-put_bytes [] i c = refl
length-put_bytes (b ∷ bs) i c = length-put_bytes bs (suc i) (set c i b) ∙ length-set c i b

get_or-put_bytes_before :
    (bs : Bytes) (i j : ℕ) (c : Bytes) → j < i → get_or (put_bytes bs i c) j 0 ≡ get_or c j 0
unfolding put_bytes
get_or-put_bytes_before [] i j c h = refl
get_or-put_bytes_before (b ∷ bs) i j c h =
    get_or-put_bytes_before bs (suc i) j (set c i b) (omega (arith, h))
    ∙ get_or-set_ne c i j b 0 (λ e. omega (arith, e, h))

get_or-put_bytes :
    (bs : Bytes) (i k : ℕ) (c : Bytes)
    → k < length bs
    → i + length bs ≤ length c
    → get_or (put_bytes bs i c) (i + k) 0 ≡ get_or bs k 0
unfolding put_bytes
get_or-put_bytes [] i k c h g = absurd (omega (arith, h))
get_or-put_bytes (b ∷ bs) i zero c h g =
    let e : i + 0 ≡ i = omega arith in
    rw e (
      get_or-put_bytes_before bs (suc i) i (set c i b) (omega arith)
      ∙ get_or-set_self c i b 0 (omega (arith, g)))
get_or-put_bytes (b ∷ bs) i (suc k) c h g =
    let e : i + suc k ≡ suc i + k = omega arith in
    rw e (
      get_or-put_bytes bs (suc i) k (set c i b) (omega (arith, h))
        (omega (arith, g, length-set c i b)))

write_field-is : (f : Field) (m : MsgBuf) → write_field f m ≡ write (bytes_of f) (width f) m
unfolding write_field bytes_of write_uint8_t write_uint16_t write_uint32_t
write_field-is (field_8 n) m = refl
write_field-is (field_16 n) m = refl
write_field-is (field_32 n) m = refl

length-bytes_of : (f : Field) → length (bytes_of f) ≡ width f
unfolding bytes_of
length-bytes_of (field_8 n) = refl
length-bytes_of (field_16 n) = refl
length-bytes_of (field_32 n) = refl

pub write_fields-index :
    (fs : List Field) (m : MsgBuf) → (write_fields fs m).index ≡ m.index + widths fs
unfolding write_fields
write_fields-index [] m = omega arith
write_fields-index (f ∷ fs) m =
    ap (λ m1. (write_fields fs m1).index) (write_field-is f m)
    ∙ write_fields-index fs (write (bytes_of f) (width f) m)
    ∙ omega arith

-- What is written later leaves the bytes before it.
write_fields-before :
    (fs : List Field) (m : MsgBuf) (j : ℕ)
    → j < m.index
    → get_or (write_fields fs m).content j 0 ≡ get_or m.content j 0
unfolding write_fields
write_fields-before [] m j h = refl
write_fields-before (f ∷ fs) m j h =
    ap (λ m1. get_or (write_fields fs m1).content j 0) (write_field-is f m)
    ∙ write_fields-before fs (write (bytes_of f) (width f) m) j (omega (arith, h))
    ∙ get_or-put_bytes_before (bytes_of f) m.index j m.content h

-- A field is read back from a content that has its bytes.
read_field-bytes :
    (f : Field) (m : MsgBuf)
    → fits f ≡ true
    → ((k : ℕ) → k < width f → get_or m.content (m.index + k) 0 ≡ get_or (bytes_of f) k 0)
    → read_field (kind f) m ≡ (f, skip (width f) m)
unfolding read_field bytes_of read_uint8_t read_uint16_t read_uint32_t
read_field-bytes (field_8 n) m h at =
    let e : at_index m 0 ≡ n = at 0 (omega arith) ∙ omega (arith, ltb→lt n 256 h) in
    ap (λ x. (field_8 x, skip 1 m)) e
read_field-bytes (field_16 n) m h at =
    let e : byte2uint16_t (at_index m 0) (at_index m 1) ≡ n =
      omega (arith, ltb→lt n 65536 h, at 0 (omega arith), at 1 (omega arith)) in
    ap (λ x. (field_16 x, skip 2 m)) e
read_field-bytes (field_32 n) m h at =
    let e : byte2uint32_t (at_index m 0) (at_index m 1) (at_index m 2) (at_index m 3) ≡ n = omega (
      arith,
      ltb→lt n 4294967296 h,
      at 0 (omega arith),
      at 1 (omega arith),
      at 2 (omega arith),
      at 3 (omega arith),
    ) in
    ap (λ x. (field_32 x, skip 4 m)) e

-- The buffer, to be read from a position on.
abbrev pub from_index : ℕ → MsgBuf → MsgBuf
from_index i m = record m { index = i }

-- Fields that fit their widths and the buffer are read back as they were written.
pub read_fields-write_fields :
    (fs : List Field) (m : MsgBuf)
    → all fits fs ≡ true
    → m.index + widths fs ≤ length m.content
    → read_fields (map kind fs) (from_index m.index (write_fields fs m)) ≡ fs
unfolding read_fields write_fields
read_fields-write_fields [] m fit room = refl
read_fields-write_fields (f ∷ fs) m fit room =
    let m1 = write (bytes_of f) (width f) m in
    let final = from_index m.index (write_fields fs m1) in
    let one : read_field (kind f) final ≡ (f, skip (width f) final) =
      read_field-bytes f final (and_true (fits f) (all fits fs) fit).0 (λ k h.
        write_fields-before fs m1 (m.index + k) (omega (arith, h))
        ∙ get_or-put_bytes (bytes_of f) m.index k m.content (omega (arith, h, length-bytes_of f))
            (omega (arith, room, length-bytes_of f))) in
    let rest : read_fields (map kind fs) (from_index m1.index (write_fields fs m1)) ≡ fs =
      read_fields-write_fields fs m1 (and_true (fits f) (all fits fs) fit).1
        (omega (arith, room, length-put_bytes (bytes_of f) m.index m.content)) in
    ap (λ x. read_fields (map kind (f ∷ fs)) (from_index m.index (write_fields fs x)))
      (write_field-is f m)
    ∙ ap (λ r. r.0 ∷ read_fields (map kind fs) r.1) one
    ∙ ap (λ r. f ∷ r) rest
