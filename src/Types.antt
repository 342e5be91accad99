-- ===== src/Types.antt =====
-- Types: the tags of internal/defs/types.go, the ttype tables of internal/reflect/ttype.go and
-- internal/reflect/desc.go, and what `newTType` computes from a defs.Type.
use frugal.Base.{ℕ, Bool, true, false, if◌then◌else◌}

-- defs.Type. The constructors are the tags, with K and V where the tag has them; `t_struct` names
-- the struct whose descriptor is the tType's Sd.
pub data DefType : Type 0 where
  t_bool t_i8 t_double t_i16 t_i32 t_i64 t_string t_enum t_binary : DefType
  t_struct : ℕ → DefType
  t_map : DefType → DefType → DefType
  t_set t_list t_pointer : DefType → DefType

-- The ttype constants that a tType can have.
pub data TType : Type 0 where
  bool_t byte_t double_t i16_t i32_t i64_t string_t struct_t map_t set_t list_t enum_t : TType

unfoldable pub ttype_code : TType → ℕ
ttype_code bool_t = 2
ttype_code byte_t = 3
ttype_code double_t = 4
ttype_code i16_t = 6
ttype_code i32_t = 8
ttype_code i64_t = 10
ttype_code string_t = 11
ttype_code struct_t = 12
ttype_code map_t = 13
ttype_code set_t = 14
ttype_code list_t = 15
ttype_code enum_t = 0xfe

-- (*Type).Tag, as a ttype: the wire type WT.
unfoldable pub tag : DefType → TType
tag t_bool = bool_t
tag t_i8 = byte_t
tag t_double = double_t
tag t_i16 = i16_t
tag t_i32 = i32_t
tag t_i64 = i64_t
tag t_string = string_t
tag t_enum = i32_t
tag t_binary = string_t
tag (t_struct s) = struct_t
tag (t_map k v) = map_t
tag (t_set v) = set_t
tag (t_list v) = list_t
tag (t_pointer v) = tag v

unfoldable pub is_enum : DefType → Bool
is_enum t_enum = true
is_enum (t_pointer v) = is_enum v
is_enum _ = false

-- The fields T, WT and IsPointer of the tType that `newTType` returns.
unfoldable pub ttype_of : DefType → TType
unfolding tag is_enum
ttype_of t = if is_enum t then enum_t else tag t

unfoldable pub wire_type : DefType → ℕ
unfolding tag ttype_code
wire_type t = ttype_code (tag t)

unfoldable pub is_pointer : DefType → Bool
is_pointer (t_pointer v) = true
is_pointer _ = false

-- The fields K and V. `newTType` leaves them nil where x.K and x.V are, and no caller reads them
-- there; the type itself stands in.
unfoldable pub key_type : DefType → DefType
key_type (t_map k v) = k
key_type t = t

unfoldable pub elem_type : DefType → DefType
elem_type (t_map k v) = v
elem_type (t_set v) = v
elem_type (t_list v) = v
elem_type (t_pointer v) = v
elem_type t = t

unfoldable pub simple_types : TType → Bool
simple_types struct_t = false
simple_types map_t = false
simple_types set_t = false
simple_types list_t = false
simple_types _ = true

unfoldable pub container_types : TType → Bool
container_types map_t = true
container_types set_t = true
container_types list_t = true
container_types _ = false

-- typeToSize; 0 for every type with no fixed size.
unfoldable pub type_to_size : TType → ℕ
type_to_size bool_t = 1
type_to_size byte_t = 1
type_to_size double_t = 8
type_to_size i16_t = 2
type_to_size i32_t = 4
type_to_size i64_t = 8
type_to_size enum_t = 4
type_to_size _ = 0

-- minWireSize, read at a wire type.
unfoldable pub min_wire_size : TType → ℕ
min_wire_size bool_t = 1
min_wire_size byte_t = 1
min_wire_size i16_t = 2
min_wire_size i32_t = 4
min_wire_size i64_t = 8
min_wire_size double_t = 8
min_wire_size string_t = 4
min_wire_size struct_t = 1
min_wire_size map_t = 6
min_wire_size set_t = 5
min_wire_size list_t = 5
min_wire_size enum_t = 0

unfoldable pub fixed_size : DefType → ℕ
unfolding ttype_of type_to_size
fixed_size t = type_to_size (ttype_of t)

unfoldable pub simple_type : DefType → Bool
unfolding ttype_of simple_types
simple_type t = simple_types (ttype_of t)

-- fieldHeaderLen, mapHeaderLen, listHeaderLen and strHeaderLen of ttype.go.
abbrev pub field_header_len : ℕ
field_header_len = 3

abbrev pub map_header_len : ℕ
map_header_len = 6

abbrev pub list_header_len : ℕ
list_header_len = 5

abbrev pub str_header_len : ℕ
str_header_len = 4

-- IsKeyType and IsValueType of internal/defs/types.go.
abbrev is_struct : DefType → Bool
is_struct (t_struct s) = true
is_struct _ = false

unfoldable pub is_key_type : DefType → Bool
is_key_type t_bool = true
is_key_type t_i8 = true
is_key_type t_double = true
is_key_type t_i16 = true
is_key_type t_i32 = true
is_key_type t_i64 = true
is_key_type t_string = true
is_key_type t_enum = true
is_key_type (t_pointer v) = is_struct v
is_key_type _ = false

unfoldable pub is_value_type : DefType → Bool
is_value_type (t_pointer v) = is_struct v
is_value_type _ = true
