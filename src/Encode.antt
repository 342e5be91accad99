-- ===== src/Encode.antt =====
-- Appending a value: internal/reflect/append.go, append_list.go, append_list_fast.go. The maps are
-- in Encode/MapLoop and Encode/MapFast. A function that returns an error gives up its buffer here,
-- where the source returns it beside the error.
pub mod MapLoop
pub mod MapFast
use frugal.Base.{ℕ, zero, suc, ◌+◌, ◌*◌, ◌/◌, ◌%◌, ◌^◌, Bool, true, false, ◌&&◌, ◌||◌}
use frugal.Base.{List, [], ◌∷◌, ◌++◌, Option, none, some, length, get_elem?}
use frugal.Base.{Outcome, ok, err, panic, fault, field_err, map_err, ◌>>=◌, ◌>>◌, if◌then◌else◌}
use frugal.Wire.{Buf, byte, append_uint16, append_uint32, append_uint64}
use frugal.Types.{DefType, TType, bool_t, byte_t, double_t, i16_t, i32_t, i64_t, string_t, struct_t}
use frugal.Types.{map_t, set_t, list_t, enum_t, ttype_of, wire_type, is_pointer, simple_type}
use frugal.Value.{Val}
use frugal.Child.{Child, AppendFunc, as_num, as_str, load, is_nil, equal, at_child}
use frugal.Desc.{TField, StructDesc}

-- The values of one word or one string, in the forms that the switches share.
unfoldable pub put_byte : Buf → Val → Outcome Buf
put_byte b v = do n ← as_num v; ok (b ++ (byte n ∷ []))

unfoldable pub put_uint16 : Buf → Val → Outcome Buf
put_uint16 b v = do n ← as_num v; ok (append_uint16 b n)

unfoldable pub put_uint32 : Buf → Val → Outcome Buf
put_uint32 b v = do n ← as_num v; ok (append_uint32 b n)

-- `uint32(*((*int64)(p)))`
unfoldable pub put_enum : Buf → Val → Outcome Buf
put_enum b v = do n ← as_num v; ok (append_uint32 b (n % 2 ^ 32))

unfoldable pub put_uint64 : Buf → Val → Outcome Buf
put_uint64 b v = do n ← as_num v; ok (append_uint64 b n)

unfoldable pub put_string : Buf → Val → Outcome Buf
put_string b v = do s ← as_str v; ok (append_uint32 b (length s % 2 ^ 32) ++ s)

-- `switch t.T` of appendAny and of appendStruct's copy of it.
unfoldable pub append_simple : TType → Buf → Val → Outcome Buf
unfolding put_byte put_uint16 put_uint32 put_enum put_uint64 put_string
append_simple byte_t b v = put_byte b v
append_simple bool_t b v = put_byte b v
append_simple i16_t b v = put_uint16 b v
append_simple i32_t b v = put_uint32 b v
append_simple enum_t b v = put_enum b v
append_simple i64_t b v = put_uint64 b v
append_simple double_t b v = put_uint64 b v
append_simple string_t b v = put_string b v
append_simple _ b v = ok b

-- `if t.IsPointer { p = *(*unsafe.Pointer)(p) }`, then AppendFunc.
unfoldable pub append_other : DefType → Buf → Child → Outcome Buf
append_other t b c = if is_pointer t then c.deref t b else c.func t b

unfoldable pub append_any : DefType → Buf → Child → Outcome Buf
unfolding append_simple append_other
append_any t b c =
    if simple_type t
    then (do v ← (if is_pointer t then load c.val else ok c.val); append_simple (ttype_of t) b v)
    else append_other t b c

unfoldable pub equal_default : TType → Option Val → Val → Outcome Bool
unfolding equal
equal_default t none v = ok false
equal_default t (some d) v = equal t d v

-- `f.CanSkipIfDefault && t.Equal(f.Default, p)`
unfoldable pub skip_default : TField → Val → Outcome Bool
unfolding equal_default
skip_default f v =
    if f.can_skip_if_default then equal_default (ttype_of f.type) f.default_val v else ok false

unfoldable pub append_field_header : TField → Buf → Buf
append_field_header f b = b ++ (byte (wire_type f.type) ∷ byte (f.id / 2 ^ 8) ∷ byte f.id ∷ [])

-- One round of the loop of appendStruct, on the field's child.
unfoldable pub append_field_at : TField → Buf → Child → Outcome Buf
unfolding append_field_header
append_field_at f b c = if f.can_skip_encode_if_nil && is_nil c.val then ok b else do
  skip ← skip_default f c.val
  if skip then ok b else map_err (field_err f.id) (append_any f.type (append_field_header f b) c)

unfoldable pub append_field : List Child → TField → Buf → Outcome Buf
append_field cs f b = at_child (get_elem? cs f.offset) (λ c. append_field_at f b c)

unfoldable pub append_fields : List Child → List TField → Buf → Outcome Buf
append_fields cs [] b = ok b
append_fields cs (f ∷ fs) b = do b' ← append_field cs f b; append_fields cs fs b'

-- The struct that a base pointer leads to: its children and the bytes of _unknownFields.
pub data Base : Type 0 where
  null : Base
  at : List Child → Buf → Base

unfoldable pub append_struct : StructDesc → Buf → Base → Outcome Buf
unfolding append_fields append_field
append_struct sd b null = ok (b ++ (0 ∷ []))
append_struct sd b (at cs xb) = do
  b' ← append_fields cs sd.fields b
  ok ((if sd.has_unknown_fields then b' ++ xb else b') ++ (0 ∷ []))

-- A slice header: `none` for a nil Data pointer.
abbrev pub Slice : Type 0
Slice = Option (List Child)

unfoldable pub append_list_header : DefType → Buf → Slice → Buf × ℕ × List Child
append_list_header t b none = (b ++ (byte (wire_type t) ∷ 0 ∷ 0 ∷ 0 ∷ 0 ∷ []), 0, [])
append_list_header t b (some cs) =
    let n = length cs % 2 ^ 32 in (append_uint32 (b ++ (byte (wire_type t) ∷ [])) n, n, cs)

-- `for i := uint32(0); i < n; i++`, the pointer moving to the next element.
unfoldable pub list_loop : (Buf → Child → Outcome Buf) → ℕ → List Child → Buf → Outcome Buf
list_loop put zero cs b = ok b
list_loop put (suc n) [] b = fault
list_loop put (suc n) (c ∷ cs) b = do b' ← put b c; list_loop put n cs b'

unfoldable pub append_list : (Buf → Child → Outcome Buf) → DefType → Buf → Slice → Outcome Buf
append_list put t b h = let (b', n, cs) = append_list_header t b h in list_loop put n cs b'

-- The functions of append_list.go and append_list_fast.go, at `t = t.V`.
abbrev pub ListFunc : Type 0
ListFunc = DefType → Buf → Slice → Outcome Buf

unfoldable pub append_list_any : ListFunc
append_list_any t = append_list (append_any t) t

unfoldable pub append_list_i08 : ListFunc
append_list_i08 = append_list (λ b c. put_byte b c.val)

unfoldable pub append_list_i16 : ListFunc
append_list_i16 = append_list (λ b c. put_uint16 b c.val)

unfoldable pub append_list_i32 : ListFunc
append_list_i32 = append_list (λ b c. put_uint32 b c.val)

unfoldable pub append_list_i64 : ListFunc
append_list_i64 = append_list (λ b c. put_uint64 b c.val)

unfoldable pub append_list_enum : ListFunc
append_list_enum = append_list (λ b c. put_enum b c.val)

unfoldable pub append_list_string : ListFunc
append_list_string = append_list (λ b c. put_string b c.val)

unfoldable pub append_list_other : ListFunc
append_list_other t = append_list (append_other t) t

-- updateListAppendFunc over the table that `init` registers: a list of bools has no fast path.
unfoldable pub list_append_func : TType → ListFunc
unfolding append_list append_list_header append_list_any append_list_i08 append_list_i16
    append_list_i32 append_list_i64 append_list_enum append_list_string append_list_other
list_append_func byte_t = append_list_i08
list_append_func i16_t = append_list_i16
list_append_func i32_t = append_list_i32
list_append_func i64_t = append_list_i64
list_append_func double_t = append_list_i64
list_append_func enum_t = append_list_enum
list_append_func string_t = append_list_string
list_append_func struct_t = append_list_other
list_append_func map_t = append_list_other
list_append_func set_t = append_list_other
list_append_func list_t = append_list_other
list_append_func bool_t = append_list_any
