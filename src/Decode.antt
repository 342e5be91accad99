-- ===== src/Decode.antt =====
-- Decoding the values of one word or one text: decodeFixedSizeTypes, decodeStringNoCopy and the
-- tSTRING case of decodeType, of internal/reflect/decoder.go. A decoder returns what it stores at
-- the address and how many bytes it read; a returned error gives up the number that the source
-- returns beside it.
pub mod Scalars
pub mod Required
pub mod Tells
pub mod Trace
pub mod Checked
pub mod Runtime
pub mod Containers
pub mod Fields
pub mod Walk
pub mod Bounds
pub mod Unknown
pub mod Result
pub mod RoundTrip
use frugal.Base.{ℕ, ◌+◌, ◌-◌, ◌^◌, List, drop, take, length, Outcome, ok, err, panic, ◌>>=◌}
use frugal.Base.{ltb, leb, ◌==◌, if◌then◌else◌, short_buffer, negative_size, size_exceeds_buffer}
use frugal.Wire.{Buf, read_byte, read_uint16, read_uint32, read_uint64, sign_extend}
use frugal.Types.{TType, bool_t, byte_t, double_t, i16_t, i32_t, i64_t, enum_t, str_header_len}
use frugal.Value.{Val, num, str}

-- What is read at an address, and the bytes it took.
abbrev pub Read : Type 0
Read = Outcome (Val × ℕ)

abbrev stored : ℕ → Outcome ℕ → Read
stored size read = do n ← read; ok (num n, size)

-- An enum is an int64 in memory and 32 bits on the wire.
unfoldable pub decode_fixed_size_types : TType → Buf → Read
decode_fixed_size_types bool_t b = stored 1 (read_byte b)
decode_fixed_size_types byte_t b = stored 1 (read_byte b)
decode_fixed_size_types double_t b = stored 8 (read_uint64 b)
decode_fixed_size_types i64_t b = stored 8 (read_uint64 b)
decode_fixed_size_types i16_t b = stored 2 (read_uint16 b)
decode_fixed_size_types i32_t b = stored 4 (read_uint32 b)
decode_fixed_size_types enum_t b = do n ← read_uint32 b; ok (num (sign_extend n), 4)
decode_fixed_size_types _ b = panic

-- Both string decoders: with nocopy the text is a part of the buffer, and else a copy of it. `l` is
-- negative where the sign bit of the 32-bit word is set.
unfoldable pub decode_string : Buf → Read
decode_string b = if ltb (length b) str_header_len then err short_buffer else do
  l ← read_uint32 b
  let rest = drop 4 b
  if leb (2 ^ 31) l
      then err negative_size
      else if ltb (length b - 4) l
      then err (size_exceeds_buffer l (length b - 4))
      else ok (str (take l rest), 4 + l)
