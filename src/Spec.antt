-- ===== src/Spec.antt =====
-- The Thrift binary form of a value, written from the protocol and not from the code: what
-- internal/reflect is to append, and whose length it is to measure.
pub mod Typed
use frugal.Base.{ℕ, zero, suc, ◌/◌, ◌%◌, Bool, true, false, ◌&&◌, ◌||◌, if◌then◌else◌, ◌==◌}
use frugal.Base.{List, [], ◌∷◌, ◌++◌, Option, none, some, length, get_elem?, Outcome, ok}
use frugal.Wire.{Buf}
use frugal.Types.{
  DefType, TType, t_pointer, struct_t, map_t, set_t, list_t, string_t, double_t, ttype_of,
}
use frugal.Types.{wire_type, key_type, elem_type, fixed_size, simple_types}
use frugal.Value.{Val, Vals, Entries, num, str, nil, slice, go_map, struct, ptr, end, item}
use frugal.Value.{no_entries, entry, len_vals}
use frugal.Child.{is_nil, f64_eq, bytes_eq}
use frugal.Desc.{TField, StructDesc}
use frugal.Codec.{struct_of}

-- The `w` low bytes of a number, the highest first.
unfoldable pub big_endian : ℕ → ℕ → Buf
big_endian zero n = []
big_endian (suc w) n = big_endian w (n / 256) ++ (n % 256 ∷ [])

-- The bytes of a text; a nil one has none.
abbrev pub text : Val → Buf
text (str s) = s
text _ = []

-- Equality of two numbers or two texts. Doubles are compared as such: NaN equals nothing.
unfoldable pub same_value : TType → Val → Val → Bool
same_value double_t (num a) (num b) = f64_eq a b
same_value k (num a) (num b) = simple_types k && (a == b)
same_value string_t v w = bytes_eq (text v) (text w)
same_value _ _ _ = false

unfoldable pub is_default : TField → Val → Bool
unfolding same_value
is_default f v = elim f.default_val [ none ↦ false | some d ↦ same_value (ttype_of f.type) d v ]

-- A struct's field is left out if it is optional and nil, or optional and equal to its default.
unfoldable pub is_omitted : TField → Val → Bool
unfolding is_default
is_omitted f v = (f.can_skip_encode_if_nil && is_nil v) || (f.can_skip_if_default && is_default f v)

-- The form of a child, as a function of the type it is read at.
abbrev pub Form : Type 0
Form = DefType → Buf

unfoldable pub field_form : TField → Option (Val × Form) → Buf
unfolding is_omitted
field_form f none = []
field_form f (some (v, form)) =
    if is_omitted f v then [] else wire_type f.type ∷ (big_endian 2 f.id ++ form f.type)

unfoldable pub fields_form : List TField → List (Val × Form) → Buf
fields_form [] cs = []
fields_form (f ∷ fs) cs = field_form f (get_elem? cs f.offset) ++ fields_form fs cs

unfoldable pub struct_form : StructDesc → List (Val × Form) → Buf → Buf
struct_form sd cs xb =
    fields_form sd.fields cs ++ ((if sd.has_unknown_fields then xb else []) ++ (0 ∷ []))

unfoldable pub list_form : DefType → ℕ → Buf → Buf
list_form t n elems = wire_type t ∷ (big_endian 4 n ++ elems)

unfoldable pub map_form : DefType → DefType → ℕ → Buf → Buf
map_form kt vt n es = wire_type kt ∷ wire_type vt ∷ (big_endian 4 n ++ es)

unfoldable pub nil_form : TType → DefType → Buf
nil_form map_t t = map_form (key_type t) (elem_type t) 0 []
nil_form list_t t = list_form (elem_type t) 0 []
nil_form set_t t = list_form (elem_type t) 0 []
nil_form string_t t = big_endian 4 0
nil_form _ t = 0 ∷ []

module _ (ds : ℕ → StructDesc) where
  unfoldable mutual
    pub wire : Val → DefType → Buf
    wire (num n) t = big_endian (fixed_size t) n
    wire (str s) t = big_endian 4 (length s) ++ s
    wire nil t = nil_form (ttype_of t) t
    wire (slice vs) t = list_form (elem_type t) (len_vals vs) (wires vs (elem_type t))
    wire (go_map n es) t =
        map_form (key_type t) (elem_type t) n (wire_entries es (key_type t) (elem_type t))
    wire (struct vs xb) t = elim (struct_of t) [
      | none ↦ []
      | some s ↦ struct_form (ds s) (forms vs) xb
    ]
    wire (ptr w) t = wire w (elem_type t)

    pub forms : Vals → List (Val × Form)
    forms end = []
    forms (item v vs) = (v, wire v) ∷ forms vs

    pub wires : Vals → DefType → Buf
    wires end t = []
    wires (item v vs) t = wire v t ++ wires vs t

    pub wire_entries : Entries → DefType → DefType → Buf
    wire_entries no_entries kt vt = []
    wire_entries (entry k v es) kt vt = wire k kt ++ (wire v vt ++ wire_entries es kt vt)
