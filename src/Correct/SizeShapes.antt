-- ===== src/Correct/SizeShapes.antt =====
-- EncodedSizeFunc on each shape of a value, given what its children measure.
use frugal.Base.{ℕ, ◌+◌, ◌≡◌, refl, sym, ap, arith, true, false}
use frugal.Base.{◌++◌, ok, length, length-append}
use frugal.Base.{ltb}
use frugal.Wire.{Buf}
use frugal.Types.{DefType, t_bool, t_i8, t_double, t_i16, t_i32, t_i64, t_string, t_enum}
use frugal.Types.{t_binary, t_struct, t_map, t_set, t_list, t_pointer, ttype_of, fixed_size}
use frugal.Types.{is_pointer, is_key_type, is_value_type, elem_type}
use frugal.Value.{Vals, str, nil, struct, ptr}
use frugal.Child.{Child}
use frugal.Codec.{child, children, struct_of}
use frugal.Desc.{StructDesc}
use frugal.Encode.{at}
use frugal.Size.{encoded_size, encoded_list_size, encoded_map_size, encoded_string_size, elem_size}
use frugal.Size.{key_size}
use frugal.Spec.{big_endian, nil_form, list_form, map_form, struct_form, forms, wire}
use frugal.Spec.Typed.{IsWord, IsText, IsNilable}
use frugal.Correct.Words.{length-big_endian}
use frugal.Correct.Measure.{value_size}

pub length-list_form :
    (t : DefType) (n : ℕ) (out : Buf) → length (list_form t n out) ≡ 5 + length out
unfolding list_form
length-list_form t n out = omega (arith, length-append (big_endian 4 n) out, length-big_endian 4 n)

pub length-map_form :
    (k v : DefType) (n : ℕ) (out : Buf) → length (map_form k v n out) ≡ 6 + length out
unfolding map_form
length-map_form k v n out = omega (arith, length-append (big_endian 4 n) out, length-big_endian 4 n)

-- Words and texts, in place and behind a pointer.
pub word_size :
    (t : DefType) (c : Child) (n : ℕ)
    → IsWord n t
    → (value_size t c ≡ ok (length (big_endian (fixed_size t) n)))
      × (value_size (t_pointer t) c ≡ ok (length (big_endian (fixed_size t) n)))
unfolding fixed_size
word_size t_bool c n h = (ap ok (sym (length-big_endian 1 n)), ap ok (sym (length-big_endian 1 n)))
word_size t_i8 c n h = (ap ok (sym (length-big_endian 1 n)), ap ok (sym (length-big_endian 1 n)))
word_size t_double c n h =
    (ap ok (sym (length-big_endian 8 n)), ap ok (sym (length-big_endian 8 n)))
word_size t_i16 c n h = (ap ok (sym (length-big_endian 2 n)), ap ok (sym (length-big_endian 2 n)))
word_size t_i32 c n h = (ap ok (sym (length-big_endian 4 n)), ap ok (sym (length-big_endian 4 n)))
word_size t_i64 c n h = (ap ok (sym (length-big_endian 8 n)), ap ok (sym (length-big_endian 8 n)))
word_size t_enum c n h = (ap ok (sym (length-big_endian 4 n)), ap ok (sym (length-big_endian 4 n)))
word_size _ c n h = absurd h

text_length : (s : Buf) → 4 + length s ≡ length (big_endian 4 (length s) ++ s)
text_length s =
    omega (arith, length-append (big_endian 4 (length s)) s, length-big_endian 4 (length s))

module _ (ds : ℕ → StructDesc) where
  pub text_size :
      (t : DefType) (s : Buf)
      → IsText t
      → (value_size t (child ds (str s)) ≡ ok (length (big_endian 4 (length s) ++ s)))
        × (value_size (t_pointer t) (child ds (ptr (str s)))
            ≡ ok (length (big_endian 4 (length s) ++ s)))
  unfolding fixed_size ttype_of is_pointer child encoded_string_size
  text_size t_string s h = (ap ok (text_length s), ap ok (text_length s))
  text_size t_binary s h = (ap ok (text_length s), ap ok (text_length s))
  text_size _ s h = absurd h

  pub nil_size-form :
      (t : DefType)
      → IsNilable t
      → value_size t (child ds nil) ≡ ok (length (nil_form (ttype_of t) t))
  unfolding fixed_size ttype_of is_pointer child encoded_string_size nil_form encoded_map_size
      encoded_list_size encoded_size struct_of map_form list_form big_endian
  nil_size-form t_binary h = refl
  nil_size-form (t_map k v) h = refl
  nil_size-form (t_set e) h = refl
  nil_size-form (t_list e) h = refl
  nil_size-form (t_pointer (t_struct s)) h = refl
  nil_size-form (t_pointer u) h = absurd h
  nil_size-form _ h = absurd h

  pub struct_pointer_size :
      (s : ℕ) (vs : Vals) (xb : Buf)
      → encoded_size (ds s) (at (children ds vs) xb)
        ≡ ok (length (struct_form (ds s) (forms ds vs) xb))
      → value_size (t_pointer (t_struct s)) (child ds (ptr (struct vs xb)))
        ≡ ok (length (wire ds (ptr (struct vs xb)) (t_pointer (t_struct s))))
  unfolding fixed_size ttype_of is_pointer child struct_of wire elem_type
  struct_pointer_size s vs xb h = h

-- Elements that are neither fixed nor pointers to scalars are measured as anywhere.
pub elem_size-value_size :
    (t : DefType) (c : Child)
    → is_value_type t ≡ true
    → ltb 0 (fixed_size t) ≡ false
    → elem_size t c ≡ value_size t c
unfolding fixed_size ttype_of is_pointer elem_size is_value_type
elem_size-value_size t_string c h e = refl
elem_size-value_size (t_pointer (t_struct s)) c h e = refl
elem_size-value_size (t_pointer u) c h e = cc
elem_size-value_size (t_struct s) c h e = refl
elem_size-value_size (t_map k v) c h e = refl
elem_size-value_size (t_set v) c h e = refl
elem_size-value_size (t_list v) c h e = refl
elem_size-value_size t_binary c h e = refl
elem_size-value_size _ c h e = cc

pub key_size-value_size :
    (t : DefType) (c : Child)
    → is_key_type t ≡ true
    → ltb 0 (fixed_size t) ≡ false
    → key_size t c ≡ value_size t c
unfolding fixed_size ttype_of is_pointer key_size is_key_type
key_size-value_size t_string c h e = refl
key_size-value_size (t_pointer (t_struct s)) c h e = refl
key_size-value_size (t_pointer u) c h e = cc
key_size-value_size _ c h e = cc
