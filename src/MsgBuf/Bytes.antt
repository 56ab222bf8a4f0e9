-- ===== src/MsgBuf/Bytes.antt =====
-- src/byte_processing.c: numbers and characters in a message buffer. A `float` is its 32 bits and a
-- `double` its 64. A write outside the content is lost here, and a read there gives 0; in C both go to
-- other memory.
use vips_adaptive_traffi.Common.{
  ℕ, zero, suc, ◌+◌, ◌*◌, ◌/◌, [], ◌∷◌, Bytes, replicate, get_or, set, u8, ℤ, from_u8,
}

-- `msg_buf_t`.
pub record MsgBuf : Type 0 where
  pub content : Bytes
  pub index : ℕ

-- `memcpy` of bytes to the content from a position on, and from it.
unfoldable pub put_bytes : Bytes → ℕ → Bytes → Bytes
put_bytes [] i content = content
put_bytes (b ∷ bs) i content = put_bytes bs (suc i) (set content i b)

unfoldable pub get_bytes : ℕ → ℕ → Bytes → Bytes
get_bytes zero i content = []
get_bytes (suc n) i content = get_or content i 0 ∷ get_bytes n (suc i) content

-- The bytes in network order.
abbrev pub uint16_t2byte : ℕ → Bytes
uint16_t2byte n = u8 (n / 256) ∷ u8 n ∷ []

abbrev pub byte2uint16_t : ℕ → ℕ → ℕ
byte2uint16_t a b = a * 256 + b

abbrev pub uint32_t2byte : ℕ → Bytes
uint32_t2byte n = u8 (n / 16777216) ∷ u8 (n / 65536) ∷ u8 (n / 256) ∷ u8 n ∷ []

abbrev pub byte2uint32_t : ℕ → ℕ → ℕ → ℕ → ℕ
byte2uint32_t a b c d = a * 16777216 + b * 65536 + c * 256 + d

abbrev pub byte2double : ℕ → ℕ → ℕ → ℕ → ℕ → ℕ → ℕ → ℕ → ℕ
byte2double a b c d e f g h = byte2uint32_t a b c d * 4294967296 + byte2uint32_t e f g h

abbrev pub at_index : MsgBuf → ℕ → ℕ
at_index m k = get_or m.content (m.index + k) 0

abbrev pub skip : ℕ → MsgBuf → MsgBuf
skip n m = record m { index = m.index + n }

-- A read gives the value and the buffer behind it.
unfoldable pub read_char : ℕ → MsgBuf → Bytes × MsgBuf
unfolding get_bytes
read_char len m = (get_bytes len m.index m.content, skip len m)

unfoldable pub read_int8_t : MsgBuf → ℤ × MsgBuf
read_int8_t m = (from_u8 (at_index m 0), skip 1 m)

unfoldable pub read_uint8_t : MsgBuf → ℕ × MsgBuf
read_uint8_t m = (at_index m 0, skip 1 m)

unfoldable pub read_uint16_t : MsgBuf → ℕ × MsgBuf
read_uint16_t m = (byte2uint16_t (at_index m 0) (at_index m 1), skip 2 m)

unfoldable pub read_uint32_t : MsgBuf → ℕ × MsgBuf
read_uint32_t m =
    (byte2uint32_t (at_index m 0) (at_index m 1) (at_index m 2) (at_index m 3), skip 4 m)

unfoldable pub read_float : MsgBuf → ℕ × MsgBuf
unfolding read_uint32_t
read_float m = read_uint32_t m

unfoldable pub read_double : MsgBuf → ℕ × MsgBuf
read_double m = (
  byte2double (at_index m 0) (at_index m 1) (at_index m 2) (at_index m 3) (at_index m 4)
      (at_index m 5) (at_index m 6) (at_index m 7),
  skip 8 m,
)

-- A write of some bytes.
abbrev pub write : Bytes → ℕ → MsgBuf → MsgBuf
write bs n m = record { content = put_bytes bs m.index m.content; index = m.index + n }

-- Blanks, and the characters over them.
unfoldable pub write_char : Bytes → ℕ → MsgBuf → MsgBuf
unfolding put_bytes
write_char src max_len m =
    let blank = put_bytes (replicate max_len b' ') m.index m.content in
    record { content = put_bytes src m.index blank; index = m.index + max_len }

unfoldable pub write_uint8_t : ℕ → MsgBuf → MsgBuf
unfolding put_bytes
write_uint8_t src m = write (u8 src ∷ []) 1 m

unfoldable pub write_uint16_t : ℕ → MsgBuf → MsgBuf
unfolding put_bytes
write_uint16_t src m = write (uint16_t2byte src) 2 m

unfoldable pub write_uint32_t : ℕ → MsgBuf → MsgBuf
unfolding put_bytes
write_uint32_t src m = write (uint32_t2byte src) 4 m

unfoldable pub write_float : ℕ → MsgBuf → MsgBuf
unfolding put_bytes
write_float src m = write (uint32_t2byte src) 4 m
