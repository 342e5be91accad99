-- ===== src/Wire.antt =====
-- Big-endian words as bytes: appendUint16, appendUint32 and appendUint64 of
-- internal/reflect/utils.go, and the encoding/binary reads that internal/reflect/decoder.go makes.
-- A byte slice is a list of numbers, and a word is its bit pattern as a number.
pub mod Laws
use frugal.Base.{ℕ, suc, ◌+◌, ◌-◌, ◌*◌, ◌/◌, ◌%◌, ◌^◌, ◌<◌, List, [], ◌∷◌, ◌++◌, arith}
use frugal.Base.{Outcome, ok, panic, ltb, if◌then◌else◌, ◌≡◌, refl}

abbrev pub Buf : Type 0
Buf = List ℕ

-- Go's byte(v).
abbrev pub byte : ℕ → ℕ
byte v = v % 256

unfoldable pub append_uint16 : Buf → ℕ → Buf
append_uint16 b v = b ++ (byte (v / 2 ^ 8) ∷ byte v ∷ [])

unfoldable pub append_uint32 : Buf → ℕ → Buf
append_uint32 b v = b ++ (byte (v / 2 ^ 24) ∷ byte (v / 2 ^ 16) ∷ byte (v / 2 ^ 8) ∷ byte v ∷ [])

unfoldable pub append_uint64 : Buf → ℕ → Buf
append_uint64 b v =
    b
    ++ (byte (v / 2 ^ 56)
        ∷ byte (v / 2 ^ 48)
        ∷ byte (v / 2 ^ 40)
        ∷ byte (v / 2 ^ 32)
        ∷ byte (v / 2 ^ 24)
        ∷ byte (v / 2 ^ 16)
        ∷ byte (v / 2 ^ 8)
        ∷ byte v
        ∷ [])

-- b[0], and binary.BigEndian.Uint16, Uint32, Uint64: each panics on a slice that is too short.
unfoldable pub read_byte : Buf → Outcome ℕ
read_byte (x ∷ _) = ok x
read_byte _ = panic

unfoldable pub read_uint16 : Buf → Outcome ℕ
read_uint16 (x ∷ y ∷ _) = ok (x * 2 ^ 8 + y)
read_uint16 _ = panic

unfoldable pub read_uint32 : Buf → Outcome ℕ
read_uint32 (x ∷ y ∷ z ∷ w ∷ _) = ok (x * 2 ^ 24 + y * 2 ^ 16 + z * 2 ^ 8 + w)
read_uint32 _ = panic

unfoldable pub read_uint64 : Buf → Outcome ℕ
read_uint64 (x ∷ y ∷ z ∷ w ∷ x' ∷ y' ∷ z' ∷ w' ∷ _) = ok (
    x * 2 ^ 56 + y * 2 ^ 48 + z * 2 ^ 40 + w * 2 ^ 32 + x' * 2 ^ 24 + y' * 2 ^ 16 + z' * 2 ^ 8 + w')
read_uint64 _ = panic

-- int64(int32(u)) as a 64-bit pattern: the sign bit of the 32-bit word is copied upwards.
unfoldable pub sign_extend : ℕ → ℕ
sign_extend u = if ltb u (2 ^ 31) then u else u + (2 ^ 64 - 2 ^ 32)
