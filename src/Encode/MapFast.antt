-- ===== src/Encode/MapFast.antt =====
-- The functions of internal/reflect/append_map_fast.go: one definition for the functions of each
-- key type, with a clause for each of them, and the table that `init` registers.
use frugal.Base.{◌++◌, ◌∷◌, [], ok, fault, ◌>>=◌, ◌==◌, if◌then◌else◌}
use frugal.Types.{t_binary, t_double}
use frugal.Types.{DefType, TType, bool_t, byte_t, double_t, i16_t, i32_t, i64_t, string_t, struct_t}
use frugal.Types.{map_t, set_t, list_t, enum_t}
use frugal.Child.{as_num}
use frugal.Encode.{put_byte, put_uint16, put_uint32, put_uint64, put_enum, put_string}
use frugal.Encode.{append_other}
use frugal.Encode.MapLoop.{Put, MapFunc, append_map}

-- The names that the functions' names are made of.
pub data Kind : Type 0 where
  bool_k i08_k i16_k i32_k i64_k enum_k string_k other_k : Kind

-- appendMapBool
unfoldable pub append_map_bool : Put
append_map_bool b c = do n ← as_num c.val; ok (if n == 0 then b ++ (0 ∷ []) else b ++ (1 ∷ []))

abbrev put_i08 : Put
put_i08 b c = put_byte b c.val

abbrev put_i16 : Put
put_i16 b c = put_uint16 b c.val

abbrev put_i32 : Put
put_i32 b c = put_uint32 b c.val

abbrev put_i64 : Put
put_i64 b c = put_uint64 b c.val

abbrev put_enums : Put
put_enums b c = put_enum b c.val

abbrev put_strings : Put
put_strings b c = put_string b c.val

-- A value beside a key of one word or one string: the body of the loop after the key.
unfoldable pub put_value : DefType → Kind → Put
put_value vt bool_k = append_map_bool
put_value vt i08_k = put_i08
put_value vt i16_k = put_i16
put_value vt i32_k = put_i32
put_value vt i64_k = put_i64
put_value vt enum_k = put_enums
put_value vt string_k = put_strings
put_value vt other_k = append_other vt

-- What `range` reads of a map at a Go map type that is not its own. At map[K]string, the slots of a
-- map[K][]byte have another stride; at map[uint64]V, the keys of a map[float64]V are hashed in
-- another way while the map grows. What it reads is not known.
unfoldable pub misread : Put
misread b c = fault

-- The value of a map that is ranged over: tSTRING stands for []byte too.
unfoldable pub ranged_value : DefType → Kind → Put
ranged_value t_binary string_k = misread
ranged_value vt v = put_value vt v

-- The key of a map that is ranged over at map[uint64]V. Beside a value that is walked into it comes
-- from reflect's iterator.
unfoldable pub ranged_key : DefType → Kind → Put
ranged_key t_double other_k = put_i64
ranged_key t_double v = misread
ranged_key kt v = put_i64

-- appendMap_BOOL_*: beside a value that is walked into the key is appended as its byte.
append_map_bool_keys : Kind → MapFunc
append_map_bool_keys other_k kt vt = append_map put_i08 (append_other vt) kt vt
append_map_bool_keys v kt vt = append_map append_map_bool (ranged_value vt v) kt vt

append_map_i08_keys : Kind → MapFunc
append_map_i08_keys v kt vt = append_map put_i08 (ranged_value vt v) kt vt

append_map_i16_keys : Kind → MapFunc
append_map_i16_keys v kt vt = append_map put_i16 (ranged_value vt v) kt vt

append_map_i32_keys : Kind → MapFunc
append_map_i32_keys v kt vt = append_map put_i32 (ranged_value vt v) kt vt

append_map_i64_keys : Kind → MapFunc
append_map_i64_keys v kt vt = append_map (ranged_key kt v) (ranged_value vt v) kt vt

append_map_enum_keys : Kind → MapFunc
append_map_enum_keys v kt vt = append_map put_enums (ranged_value vt v) kt vt

append_map_string_keys : Kind → MapFunc
append_map_string_keys v kt vt = append_map put_strings (ranged_value vt v) kt vt

-- appendMap_Other_*, by reflect's iterator: a bool value is appended as its byte.
append_map_other_keys : Kind → MapFunc
append_map_other_keys bool_k kt vt = append_map (append_other kt) put_i08 kt vt
append_map_other_keys v kt vt = append_map (append_other kt) (put_value vt v) kt vt

unfoldable pub kind : TType → Kind
kind bool_t = bool_k
kind byte_t = i08_k
kind i16_t = i16_k
kind i32_t = i32_k
kind i64_t = i64_k
kind double_t = i64_k
kind enum_t = enum_k
kind string_t = string_k
kind struct_t = other_k
kind map_t = other_k
kind set_t = other_k
kind list_t = other_k

-- The function whose name is made of two kinds.
unfoldable pub map_kind_func : Kind → Kind → MapFunc
unfolding append_map_bool_keys append_map_i08_keys append_map_i16_keys append_map_i32_keys
    append_map_i64_keys append_map_enum_keys append_map_string_keys append_map_other_keys
map_kind_func bool_k = append_map_bool_keys
map_kind_func i08_k = append_map_i08_keys
map_kind_func i16_k = append_map_i16_keys
map_kind_func i32_k = append_map_i32_keys
map_kind_func i64_k = append_map_i64_keys
map_kind_func enum_k = append_map_enum_keys
map_kind_func string_k = append_map_string_keys
map_kind_func other_k = append_map_other_keys

-- updateMapAppendFunc over the registered table, which has every pair of ttypes.
unfoldable pub map_append_func : TType → TType → MapFunc
unfolding map_kind_func kind put_value ranged_value ranged_key misread append_map_bool
map_append_func k v = map_kind_func (kind k) (kind v)
