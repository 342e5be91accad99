-- ===== src/Decode/Walk.antt =====
-- decodeType and Decode of internal/reflect/decoder.go, which call each other down to the depth
-- limit, and the entry Decode of internal/reflect/reflect.go.
use frugal.Base.{ℕ, zero, suc, ltb, if◌then◌else◌, none, some, err, panic, fault}
use frugal.Base.{depth_limit_exceeded, unknown_type}
use frugal.Wire.{Buf}
use frugal.Types.{DefType, TType, string_t, map_t, list_t, set_t, struct_t, ttype_of, ttype_code}
use frugal.Types.{fixed_size}
use frugal.Value.{Val, struct}
use frugal.Desc.{StructDesc}
use frugal.Codec.{struct_of}
use frugal.Decode.{Read, decode_fixed_size_types, decode_string}
use frugal.Decode.Runtime.{Runtime, Decoder}
use frugal.Decode.Containers.{decode_list, decode_map}
use frugal.Decode.Fields.{decode_body}

abbrev pub max_depth_limit : ℕ
max_depth_limit = 1023

module _ (rt : Runtime) (ds : ℕ → StructDesc) where
  -- InitDefault, where the struct has it.
  unfoldable pub init_struct : ℕ → Val → Val
  init_struct s old = if (ds s).has_init_func then rt.init_default s old else old

  -- `switch t.T` of decodeType, with decodeType and Decode at the depth below.
  unfoldable pub decode_case :
      Decoder → (StructDesc → Buf → Val → Read) → TType → DefType → Buf → Val → Read
  decode_case dec dec_struct string_t t b old = decode_string b
  decode_case dec dec_struct map_t t b old = decode_map rt dec t b
  decode_case dec dec_struct list_t t b old = decode_list rt dec t b
  decode_case dec dec_struct set_t t b old = decode_list rt dec t b
  decode_case dec dec_struct struct_t t b old = elim (struct_of t) [
    | none ↦ panic
    | some s ↦ dec_struct (ds s) b (init_struct s old)
  ]
  decode_case dec dec_struct k t b old = err (unknown_type (ttype_code k))

  unfoldable mutual
    pub decode_type : ℕ → DefType → Buf → Val → Read
    decode_type zero t b old = err depth_limit_exceeded
    decode_type (suc d) t b old =
        if ltb 0 (fixed_size t)
        then decode_fixed_size_types (ttype_of t) b
        else decode_case (decode_type d) (decode_struct d) (ttype_of t) t b old

    pub decode_struct : ℕ → StructDesc → Buf → Val → Read
    decode_struct zero sd b old = err depth_limit_exceeded
    decode_struct (suc d) sd b old = elim old [
      | struct vs xb ↦ decode_body rt (decode_type d) d sd b vs xb
      | _ ↦ fault
    ]

  -- Decode of reflect.go, with the descriptor of the struct that v points to.
  unfoldable pub decode_object : ℕ → Buf → Val → Read
  decode_object s b v = decode_struct max_depth_limit (ds s) b v
