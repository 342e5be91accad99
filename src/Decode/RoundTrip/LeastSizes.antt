-- ===== src/Decode/RoundTrip/LeastSizes.antt =====
-- The wire forms are not shorter than minWireSize says, so a count that was written passes the
-- check of the counts that are read.
use frugal.Base.{ℕ, false, ◌+◌, ◌*◌, ◌≤◌, ◌<◌, arith, length, ◌++◌, [], ◌∷◌, length-append}
use frugal.Wire.{Buf}
use frugal.Types.{
  DefType, t_bool, t_i8, t_double, t_i16, t_i32, t_i64, t_string, t_enum, t_binary, t_struct, t_map,
  t_set, t_list, t_pointer,
}
use frugal.Types.{tag, ttype_of, is_enum, fixed_size, min_wire_size, elem_type, key_type}
use frugal.Value.{
  Val, Vals, Entries, num, str, nil, slice, go_map, struct, ptr, end, item, no_entries, entry,
  len_vals, len_entries,
}
use frugal.Desc.{StructDesc}
use frugal.Codec.{struct_of}
use frugal.Spec.{
  big_endian, wire, wires, wire_entries, fields_form, struct_form, list_form, map_form, nil_form,
  forms,
}
use frugal.Spec.Typed.{IsTyped, AllTyped, EntriesTyped, IsWord, IsText, IsNilable}
use frugal.Correct.Words.{length-big_endian}

pub min_wire_size-positive : (t : DefType) → 0 < min_wire_size (tag t)
unfolding min_wire_size tag
min_wire_size-positive (t_pointer u) = min_wire_size-positive u
min_wire_size-positive t_bool = omega arith
min_wire_size-positive t_i8 = omega arith
min_wire_size-positive t_double = omega arith
min_wire_size-positive t_i16 = omega arith
min_wire_size-positive t_i32 = omega arith
min_wire_size-positive t_i64 = omega arith
min_wire_size-positive t_string = omega arith
min_wire_size-positive t_enum = omega arith
min_wire_size-positive t_binary = omega arith
min_wire_size-positive (t_struct s) = omega arith
min_wire_size-positive (t_map k v) = omega arith
min_wire_size-positive (t_set v) = omega arith
min_wire_size-positive (t_list v) = omega arith

word_least :
    (t : DefType) (n : ℕ)
    → IsWord n t
    → min_wire_size (tag t) ≤ length (big_endian (fixed_size t) n)
unfolding min_wire_size tag fixed_size ttype_of is_enum
word_least t_bool n h = omega (arith, length-big_endian 1 n)
word_least t_i8 n h = omega (arith, length-big_endian 1 n)
word_least t_double n h = omega (arith, length-big_endian 8 n)
word_least t_i16 n h = omega (arith, length-big_endian 2 n)
word_least t_i32 n h = omega (arith, length-big_endian 4 n)
word_least t_i64 n h = omega (arith, length-big_endian 8 n)
word_least t_enum n h = omega (arith, length-big_endian 4 n)
word_least _ n h = absurd h

text_least :
    (t : DefType) (s : Buf)
    → IsText t
    → min_wire_size (tag t) ≤ length (big_endian 4 (length s) ++ s)
unfolding min_wire_size tag
text_least t_string s h =
    omega (arith, length-append (big_endian 4 (length s)) s, length-big_endian 4 (length s))
text_least t_binary s h =
    omega (arith, length-append (big_endian 4 (length s)) s, length-big_endian 4 (length s))
text_least _ s h = absurd h

list_long : (e : DefType) (n : ℕ) (b : Buf) → 5 ≤ length (list_form e n b)
unfolding list_form
list_long e n b = omega (arith, length-append (big_endian 4 n) b, length-big_endian 4 n)

map_long : (k v : DefType) (n : ℕ) (b : Buf) → 6 ≤ length (map_form k v n b)
unfolding map_form
map_long k v n b = omega (arith, length-append (big_endian 4 n) b, length-big_endian 4 n)

ends_long : (a b : Buf) → 1 ≤ length (a ++ (b ++ (0 ∷ [])))
ends_long a b = omega (arith, length-append a (b ++ (0 ∷ [])), length-append b (0 ∷ []))

nil_least : (t : DefType) → IsNilable t → min_wire_size (tag t) ≤ length (nil_form (ttype_of t) t)
unfolding min_wire_size tag ttype_of is_enum nil_form key_type elem_type
nil_least t_binary h = omega (arith, length-big_endian 4 0)
nil_least (t_map k v) h = map_long k v 0 []
nil_least (t_set v) h = list_long v 0 []
nil_least (t_list v) h = list_long v 0 []
nil_least (t_pointer (t_struct s)) h = omega arith
nil_least _ h = absurd h

module _ (ds : ℕ → StructDesc) where
  struct_long : (s : ℕ) (vs : Vals) (xb : Buf) → 1 ≤ length (struct_form (ds s) (forms ds vs) xb)
  unfolding struct_form
  struct_long s vs xb = ends_long (fields_form (ds s).fields (forms ds vs)) _

  wire-least :
      (v : Val) (t : DefType) → IsTyped ds false v t → min_wire_size (tag t) ≤ length (wire ds v t)
  unfolding wire min_wire_size tag elem_type struct_of map_form
  wire-least (num n) t h = word_least t n h
  wire-least (str s) t h = text_least t s h.0
  wire-least nil t h = nil_least t h
  wire-least (slice vs) (t_list e) h = list_long e (len_vals vs) _
  wire-least (slice vs) (t_set e) h = list_long e (len_vals vs) _
  wire-least (slice vs) _ h = absurd h
  wire-least (go_map n es) (t_map k v) h = map_long k v n _
  wire-least (go_map n es) _ h = absurd h
  wire-least (struct vs xb) t h = cc
  wire-least (ptr (num n)) (t_pointer u) h = word_least u n h
  wire-least (ptr (str s)) (t_pointer u) h = text_least u s h.0
  wire-least (ptr (struct vs xb)) (t_pointer (t_struct s)) h = struct_long s vs xb
  wire-least (ptr nil) (t_pointer u) h = absurd h
  wire-least (ptr (slice vs)) (t_pointer u) h = absurd h
  wire-least (ptr (go_map n es)) (t_pointer u) h = absurd h
  wire-least (ptr (ptr w)) (t_pointer u) h = absurd h
  wire-least (ptr w) _ h = absurd h

  pub wires-least :
      (vs : Vals) (e : DefType)
      → AllTyped ds false vs e
      → len_vals vs * min_wire_size (tag e) ≤ length (wires ds vs e)
  unfolding wire
  wires-least end e h = omega arith
  wires-least (item v vs) e (hv, h) =
      omega
        (arith, wire-least v e hv, wires-least vs e h, length-append (wire ds v e) (wires ds vs e))

  pub wire_entries-least :
      (es : Entries) (kt vt : DefType)
      → EntriesTyped ds false es kt vt
      → len_entries es * (min_wire_size (tag kt) + min_wire_size (tag vt))
        ≤ length (wire_entries ds es kt vt)
  unfolding wire
  wire_entries-least no_entries kt vt h = omega arith
  wire_entries-least (entry k v es) kt vt (hk, hv, h) = omega (
    arith,
    wire-least k kt hk,
    wire-least v vt hv,
    wire_entries-least es kt vt h,
    length-append (wire ds k kt) (wire ds v vt ++ wire_entries ds es kt vt),
    length-append (wire ds v vt) (wire_entries ds es kt vt),
  )
