-- ===== src/Decode/RoundTrip/Leaves.antt =====
-- Words and texts, read from their wire form.
use frugal.Base.{ℕ, ◌+◌, ◌%◌, ◌^◌, ◌<◌, ◌≡◌, sym, ap, ◌∙◌, arith}
use frugal.Base.{[], ◌++◌, length, ok}
use frugal.Wire.{Buf, read_byte, read_uint16, read_uint32, read_uint64}
use frugal.Wire.Laws.{read-append_uint16, read-append_uint32, read-append_uint64}
use frugal.Types.{
  DefType, t_bool, t_i8, t_double, t_i16, t_i32, t_i64, t_enum, ttype_of, fixed_size,
}
use frugal.Value.{num, str}
use frugal.Spec.{big_endian}
use frugal.Spec.Typed.{IsWord}
use frugal.Correct.Words.{
  append_uint16-big_endian, append_uint32-big_endian, append_uint32-big_endian_mod,
  append_uint64-big_endian,
}
use frugal.Encode.{append_simple, put_string}
use frugal.Decode.{decode_fixed_size_types, decode_string}
use frugal.Decode.Scalars.{decode_string-append_simple}
use frugal.Decode.Result.{read_back}

pub read_uint16-big_endian :
    (n : ℕ) (rest : Buf) → n < 2 ^ 16 → read_uint16 (big_endian 2 n ++ rest) ≡ ok n
read_uint16-big_endian n rest h =
    ap (λ b. read_uint16 (b ++ rest)) (sym (append_uint16-big_endian [] n))
    ∙ read-append_uint16 n rest h

pub read_uint32-big_endian :
    (n : ℕ) (rest : Buf) → n < 2 ^ 32 → read_uint32 (big_endian 4 n ++ rest) ≡ ok n
read_uint32-big_endian n rest h =
    ap (λ b. read_uint32 (b ++ rest)) (sym (append_uint32-big_endian [] n))
    ∙ read-append_uint32 n rest h

read_uint32-big_endian_mod :
    (n : ℕ) (rest : Buf) → read_uint32 (big_endian 4 n ++ rest) ≡ ok (n % 2 ^ 32)
read_uint32-big_endian_mod n rest =
    ap (λ b. read_uint32 (b ++ rest)) (sym (append_uint32-big_endian_mod [] n))
    ∙ read-append_uint32 (n % 2 ^ 32) rest (omega arith)

read_uint64-big_endian :
    (n : ℕ) (rest : Buf) → n < 2 ^ 64 → read_uint64 (big_endian 8 n ++ rest) ≡ ok n
read_uint64-big_endian n rest h =
    ap (λ b. read_uint64 (b ++ rest)) (sym (append_uint64-big_endian [] n))
    ∙ read-append_uint64 n rest h

read_byte-big_endian : (n : ℕ) (rest : Buf) → n < 2 ^ 8 → read_byte (big_endian 1 n ++ rest) ≡ ok n
unfolding big_endian read_byte
read_byte-big_endian n rest h = ap ok (omega arith)

-- A word of a scalar type.
pub read_word :
    (t : DefType) (n : ℕ) (rest : Buf)
    → IsWord n t
    → decode_fixed_size_types (ttype_of t) (big_endian (fixed_size t) n ++ rest)
      ≡ ok (num (read_back (ttype_of t) n), fixed_size t)
unfolding decode_fixed_size_types ttype_of fixed_size read_back
read_word t_bool n rest h = rw (read_byte-big_endian n rest (omega arith))
read_word t_i8 n rest h = rw (read_byte-big_endian n rest h)
read_word t_double n rest h = rw (read_uint64-big_endian n rest h)
read_word t_i16 n rest h = rw (read_uint16-big_endian n rest h)
read_word t_i32 n rest h = rw (read_uint32-big_endian n rest h)
read_word t_i64 n rest h = rw (read_uint64-big_endian n rest h)
read_word t_enum n rest h = rw (read_uint32-big_endian_mod n rest)
read_word _ n rest h = absurd h

-- A text.
pub read_text :
    (s rest : Buf)
    → length s < 2 ^ 31
    → decode_string ((big_endian 4 (length s) ++ s) ++ rest) ≡ ok (str s, 4 + length s)
read_text s rest h =
    ap (λ b. decode_string ((b ++ s) ++ rest)) (sym (append_uint32-big_endian_mod [] (length s)))
    ∙ (unfold append_simple put_string in decode_string-append_simple s rest h)
