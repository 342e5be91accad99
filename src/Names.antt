-- ===== src/Names.antt =====
-- (*Type).String of internal/defs/types.go, by which newTType of internal/reflect/ttype.go finds the
-- tType of a type beside its Go type.
pub mod Distinct
use frugal.Base.{ℕ, [], ◌∷◌, ◌++◌}
use frugal.Wire.{Buf}
use frugal.Types.{
  DefType, t_bool, t_i8, t_double, t_i16, t_i32, t_i64, t_string, t_enum, t_binary, t_struct, t_map,
  t_set, t_list, t_pointer,
}

-- `name` is what reflect says is the name of a struct.
unfoldable pub type_string : (ℕ → Buf) → DefType → Buf
type_string name t_bool = 98 ∷ 111 ∷ 111 ∷ 108 ∷ []
type_string name t_i8 = 105 ∷ 56 ∷ []
type_string name t_double = 100 ∷ 111 ∷ 117 ∷ 98 ∷ 108 ∷ 101 ∷ []
type_string name t_i16 = 105 ∷ 49 ∷ 54 ∷ []
type_string name t_i32 = 105 ∷ 51 ∷ 50 ∷ []
type_string name t_i64 = 105 ∷ 54 ∷ 52 ∷ []
type_string name t_string = 115 ∷ 116 ∷ 114 ∷ 105 ∷ 110 ∷ 103 ∷ []
type_string name t_enum = 101 ∷ 110 ∷ 117 ∷ 109 ∷ []
type_string name t_binary = 98 ∷ 105 ∷ 110 ∷ 97 ∷ 114 ∷ 121 ∷ []
type_string name (t_struct s) = name s
type_string name (t_map k v) =
    109 ∷ 97 ∷ 112 ∷ 60 ∷ (type_string name k ++ (58 ∷ (type_string name v ++ (62 ∷ []))))
type_string name (t_set v) = 115 ∷ 101 ∷ 116 ∷ 60 ∷ (type_string name v ++ (62 ∷ []))
type_string name (t_list v) = 108 ∷ 105 ∷ 115 ∷ 116 ∷ 60 ∷ (type_string name v ++ (62 ∷ []))
type_string name (t_pointer v) = 42 ∷ type_string name v
