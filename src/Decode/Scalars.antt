-- ===== src/Decode/Scalars.antt =====
-- Decoding after encoding, for words and texts, and what the string decoder does on every buffer.
use frugal.Base.{ℕ, ◌+◌, ◌-◌, ◌*◌, ◌%◌, ◌^◌, ◌≤◌, ◌<◌, ◌≡◌, ◌⊎◌, refl, ap, ◌∙◌, arith}
use frugal.Base.{
  [], ◌∷◌, ◌++◌, length, take, drop, ok, err, ◌>>=◌, inl, inr, length-append, take-append,
}
use frugal.Base.{
  le→not_ltb, lt→not_leb, ltb→lt, not_ltb→le, ltb, leb, Bool-cases, short_buffer, negative_size,
  size_exceeds_buffer,
}
use frugal.Wire.{Buf, append_uint32, read_byte, read_uint32}
use frugal.Wire.Laws.{read-append_uint16, read-append_uint32, read-append_uint64, sign_extend-mod}
use frugal.Types.{
  DefType, t_bool, t_i8, t_double, t_i16, t_i32, t_i64, t_enum, ttype_of, fixed_size, string_t,
}
use frugal.Value.{Val, num, str}
use frugal.Encode.{append_simple}
use frugal.Decode.{Read, decode_fixed_size_types, decode_string}
use frugal.Spec.Typed.{IsWord}

-- An enum survives if it is a 32-bit integer: the wire has 32 bits of it.
abbrev pub FitsWire : DefType → ℕ → Type 0
FitsWire t_enum n = (n < 2 ^ 31) ⊎ ((2 ^ 64 - 2 ^ 31 ≤ n) × (n < 2 ^ 64))
FitsWire t n = IsWord n t

byte_word : (n : ℕ) (rest : Buf) → n < 2 ^ 8 → read_byte (n % 256 ∷ rest) ≡ ok n
unfolding read_byte
byte_word n rest h = ap ok (omega arith)

-- What appendAny writes for a word of a scalar type, decodeFixedSizeTypes reads back, with as many
-- bytes as the type's fixed size and whatever follows them; an enum must be a 32-bit integer.
pub decode_fixed_size_types-append_simple :
    (t : DefType) (n : ℕ) (rest : Buf)
    → IsWord n t
    → FitsWire t n
    → (append_simple (ttype_of t) [] (num n) >>= λ out.
        decode_fixed_size_types (ttype_of t) (out ++ rest))
      ≡ ok (num n, fixed_size t)
unfolding ttype_of append_simple decode_fixed_size_types fixed_size
decode_fixed_size_types-append_simple t_bool n rest h f = rw (byte_word n rest (omega arith))
decode_fixed_size_types-append_simple t_i8 n rest h f = rw (byte_word n rest (omega arith))
decode_fixed_size_types-append_simple t_double n rest h f = rw (read-append_uint64 n rest h)
decode_fixed_size_types-append_simple t_i16 n rest h f = rw (read-append_uint16 n rest h)
decode_fixed_size_types-append_simple t_i32 n rest h f = rw (read-append_uint32 n rest h)
decode_fixed_size_types-append_simple t_i64 n rest h f = rw (read-append_uint64 n rest h)
decode_fixed_size_types-append_simple t_enum n rest h f =
    rw (read-append_uint32 (n % 2 ^ 32) rest (omega arith), sign_extend-mod n f)
decode_fixed_size_types-append_simple _ n rest h f = absurd h

decode_string-body :
    (x y z w l : ℕ) (body : Buf)
    → x * 2 ^ 24 + y * 2 ^ 16 + z * 2 ^ 8 + w ≡ l
    → l < 2 ^ 31
    → l ≤ length body
    → decode_string (x ∷ y ∷ z ∷ w ∷ body) ≡ ok (str (take l body), 4 + l)
unfolding decode_string read_uint32
decode_string-body x y z w l body e h fits =
    let b = x ∷ y ∷ z ∷ w ∷ body in
    let left : length b - 4 ≡ length body = omega arith in
    rw (
      le→not_ltb 4 (length b) (omega arith),
      e,
      lt→not_leb l (2 ^ 31) h,
      le→not_ltb l (length b - 4) (omega (arith, left, fits)),
    )

-- What appendAny writes for a text shorter than 2^31 bytes, the string decoders read back.
pub decode_string-append_simple :
    (s rest : Buf)
    → length s < 2 ^ 31
    → (append_simple string_t [] (str s) >>= λ out. decode_string (out ++ rest))
      ≡ ok (str s, 4 + length s)
unfolding append_simple append_uint32
decode_string-append_simple s rest h =
    decode_string-body _ _ _ _ (length s) (s ++ rest) (omega arith) h
      (omega (arith, length-append s rest))
    ∙ ap (λ r. ok (str r, 4 + length s)) (take-append s rest)

-- On every buffer the string decoders return: a text of the bytes behind the length, which lies in
-- the buffer, or one of three errors; they never panic.
pub Settles : (Val × ℕ → Type 0) → Read → Type 0
Settles P (ok r) = P r
Settles P (err e) =
    (e ≡ short_buffer)
    ⊎ ((e ≡ negative_size) ⊎ ((l : ℕ) × (r : ℕ) × (e ≡ size_exceeds_buffer l r) × (r < l)))
Settles P _ = ⊥

-- On every buffer the string decoders return, and never panic: a text that is the bytes behind the
-- length and ends inside the buffer, or one of three errors, the last only where the length is
-- larger than what remains.
pub decode_string-Settles :
    (b : Buf)
    → Settles
        (λ (v, n). (4 ≤ n) × (n ≤ length b) × (v ≡ str (take (n - 4) (drop 4 b))))
        (decode_string b)
unfolding Settles decode_string read_uint32
decode_string-Settles [] = inl refl
decode_string-Settles (x ∷ []) = inl refl
decode_string-Settles (x ∷ y ∷ []) = inl refl
decode_string-Settles (x ∷ y ∷ z ∷ []) = inl refl
decode_string-Settles (x ∷ y ∷ z ∷ w ∷ body) =
    let b = x ∷ y ∷ z ∷ w ∷ body in
    let l = x * 2 ^ 24 + y * 2 ^ 16 + z * 2 ^ 8 + w in
    let long = le→not_ltb 4 (length b) (omega arith) in
    elim (Bool-cases (leb (2 ^ 31) l)) [
      | inl e ↦ rw (long, e) (inr (inl refl))
      | inr e ↦ elim (Bool-cases (ltb (length b - 4) l)) [
        | inl f ↦ rw (long, e, f) (inr (inr (l, length b - 4, refl, ltb→lt (length b - 4) l f)))
        | inr f ↦
            rw (long, e, f)
              (
                omega arith,
                omega (arith, not_ltb→le (length b - 4) l f),
                ap (λ n. str (take n body)) (omega arith),
              )
      ]
    ]
