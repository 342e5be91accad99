-- ===== src/Decode/RoundTrip/Shapes.antt =====
-- One value of each shape, read from its wire form; the least sizes; and the fields of a struct.
use frugal.Base.{ℕ, suc, ◌^◌, ◌<◌, ◌≡◌, refl, sym, ap, ◌∙◌, arith}
use frugal.Base.{◌++◌, All, length, length-append}
use frugal.Base.{ok}
use frugal.Wire.{Buf}
use frugal.Types.{
  DefType, t_bool, t_i8, t_double, t_i16, t_i32, t_i64, t_string, t_enum, t_binary, t_pointer,
}
use frugal.Types.{ttype_of, is_pointer, elem_type, fixed_size}
use frugal.Value.{Val, Vals, struct, num, str, ptr, len_vals}
use frugal.Desc.{StructDesc}
use frugal.Bitset.Laws.{IsBitset}
use frugal.Spec.{big_endian}
use frugal.Spec.Typed.{IsWord, IsText}
use frugal.Correct.Words.{length-big_endian}
use frugal.Decode.{Read, decode_fixed_size_types, decode_string}
use frugal.Decode.Runtime.{Runtime, Decoder, decode_at, decode_elem}
use frugal.Decode.Walk.{decode_type, decode_case}
use frugal.Decode.Result.{read_back, new_struct}
use frugal.Decode.RoundTrip.Leaves.{read_word, read_text}

-- A struct in memory that has every field of its descriptor.
pub record IsLaid (sd : StructDesc) (v : Val) : Type 0 where
  pub ws : Vals
  pub yb : Buf
  pub shape : v ≡ struct ws yb
  pub inside : All (λ f. f.offset < len_vals ws) sd.fields

-- What the runtime guarantees: new structs have their fields, after InitDefault too, and the pool
-- gives bitsets of 65536 bits, and mallocgc as many bytes as it is asked for.
pub record IsRuntime (rt : Runtime) (ds : ℕ → StructDesc) : Type 0 where
  pub laid : (s : ℕ) → IsLaid (ds s) (new_struct rt ds s)
  pub pool : (d : ℕ) (b : Buf) → IsBitset (rt.bitset d b)
  pub mem : (n : ℕ) → length (rt.unknown_mem n) ≡ n

module _ (rt : Runtime) where
  -- Through a pointer.
  pub through :
      (dec : Decoder) (u : DefType) (b : Buf) (old x : Val) (n : ℕ)
      → dec (t_pointer u) b (rt.fresh u) ≡ ok (x, n)
      → decode_at rt dec (t_pointer u) b old ≡ ok (ptr x, n)
  unfolding decode_at is_pointer elem_type
  through dec u b old x n h = rw h

  pub word_at :
      (dec : Decoder) (t : DefType) (n : ℕ) (rest : Buf) (old : Val)
      → IsWord n t
      → decode_at rt (decode_elem dec) t (big_endian (fixed_size t) n ++ rest) old
        ≡ ok (num (read_back (ttype_of t) n), length (big_endian (fixed_size t) n))
  word_at dec t n rest old h =
      at_word t n (big_endian (fixed_size t) n ++ rest) old h
      ∙ read_word t n rest h
      ∙ ap (λ k. ok (num (read_back (ttype_of t) n), k)) (sym (length-big_endian (fixed_size t) n))
    where
      at_word :
          (t : DefType) (n : ℕ) (b : Buf) (old : Val)
          → IsWord n t
          → decode_at rt (decode_elem dec) t b old ≡ decode_fixed_size_types (ttype_of t) b
      at_word t_bool n b old h = unfold decode_at decode_elem is_pointer fixed_size in refl
      at_word t_i8 n b old h = unfold decode_at decode_elem is_pointer fixed_size in refl
      at_word t_double n b old h = unfold decode_at decode_elem is_pointer fixed_size in refl
      at_word t_i16 n b old h = unfold decode_at decode_elem is_pointer fixed_size in refl
      at_word t_i32 n b old h = unfold decode_at decode_elem is_pointer fixed_size in refl
      at_word t_i64 n b old h = unfold decode_at decode_elem is_pointer fixed_size in refl
      at_word t_enum n b old h = unfold decode_at decode_elem is_pointer fixed_size in refl
      at_word _ n b old h = absurd h

  pub pointed_word :
      (dec : Decoder) (u : DefType) (n : ℕ) (rest : Buf) (old : Val)
      → IsWord n u
      → decode_at rt (decode_elem dec) (t_pointer u) (big_endian (fixed_size u) n ++ rest) old
        ≡ ok (ptr (num (read_back (ttype_of u) n)), length (big_endian (fixed_size u) n))
  pointed_word dec u n rest old h =
      through (decode_elem dec) u _ old (num (read_back (ttype_of u) n)) _ (
        at_pointer u n (big_endian (fixed_size u) n ++ rest) (rt.fresh u) h
        ∙ word_at dec u n rest (rt.fresh u) h)
    where
      at_pointer :
          (u : DefType) (n : ℕ) (b : Buf) (old : Val)
          → IsWord n u
          → decode_elem dec (t_pointer u) b old ≡ decode_at rt (decode_elem dec) u b old
      at_pointer t_bool n b old h =
          unfold decode_at decode_elem is_pointer fixed_size ttype_of in refl
      at_pointer t_i8 n b old h =
          unfold decode_at decode_elem is_pointer fixed_size ttype_of in refl
      at_pointer t_double n b old h =
          unfold decode_at decode_elem is_pointer fixed_size ttype_of in refl
      at_pointer t_i16 n b old h =
          unfold decode_at decode_elem is_pointer fixed_size ttype_of in refl
      at_pointer t_i32 n b old h =
          unfold decode_at decode_elem is_pointer fixed_size ttype_of in refl
      at_pointer t_i64 n b old h =
          unfold decode_at decode_elem is_pointer fixed_size ttype_of in refl
      at_pointer t_enum n b old h =
          unfold decode_at decode_elem is_pointer fixed_size ttype_of in refl
      at_pointer _ n b old h = absurd h

module _ (rt : Runtime) (ds : ℕ → StructDesc) where
  -- The text of a string or a []byte, and behind a pointer.
  text_length :
      (s rest : Buf) (b : Buf) (r : Read)
      → r ≡ decode_string b
      → b ≡ (big_endian 4 (length s) ++ s) ++ rest
      → length s < 2 ^ 31
      → r ≡ ok (str s, length (big_endian 4 (length s) ++ s))
  text_length s rest b r e q h =
      e
      ∙ ap decode_string q
      ∙ read_text s rest h
      ∙ ap (λ k. ok (str s, k))
          (omega (arith, length-append (big_endian 4 (length s)) s, length-big_endian 4 (length s)))

  pub text_at :
      (d : ℕ) (t : DefType) (s rest : Buf) (old : Val)
      → IsText t
      → length s < 2 ^ 31
      → decode_at rt
          (decode_elem (decode_type rt ds (suc d)))
          t
          ((big_endian 4 (length s) ++ s) ++ rest)
          old
        ≡ ok (str s, length (big_endian 4 (length s) ++ s))
  unfolding decode_at decode_elem is_pointer fixed_size decode_type decode_case ttype_of
  text_at d t_string s rest old h l = text_length s rest _ _ refl refl l
  text_at d t_binary s rest old h l = text_length s rest _ _ refl refl l
  text_at d _ s rest old h l = absurd h

  pub pointed_text :
      (d : ℕ) (u : DefType) (s rest : Buf) (old : Val)
      → IsText u
      → length s < 2 ^ 31
      → decode_at rt
          (decode_elem (decode_type rt ds (suc d)))
          (t_pointer u)
          ((big_endian 4 (length s) ++ s) ++ rest)
          old
        ≡ ok (ptr (str s), length (big_endian 4 (length s) ++ s))
  unfolding decode_elem fixed_size decode_type decode_case ttype_of
  pointed_text d t_string s rest old h l =
      through rt _ t_string _ old _ _ (text_length s rest _ _ refl refl l)
  pointed_text d t_binary s rest old h l =
      through rt _ t_binary _ old _ _ (text_length s rest _ _ refl refl l)
  pointed_text d _ s rest old h l = absurd h
