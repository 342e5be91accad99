-- ===== src/Tests/Runs.antt =====
-- Runs of the decoder on corrupt input and into variables that are used again.
use frugal.Base.{ℕ, ◌≡◌, refl, false, [], ◌∷◌, none, ok, panic}
use frugal.Wire.{read_byte, read_uint16, read_uint32, sign_extend}
use frugal.Types.{
  t_i32, t_struct, t_map, is_pointer, fixed_size, type_to_size, ttype_of, is_enum, tag, wire_type,
  ttype_code, key_type, elem_type, min_wire_size,
}
use frugal.Value.{num, nil, go_map, struct, end, item, no_entries, entry}
use frugal.Child.{equal, equal_num, bytes_eq}
use frugal.Codec.{struct_of}
use frugal.Desc.{
  StructDesc, default_req, tfield, from_defs_fields, fill_fields, from_defs_field, new_ttype_panics,
  set_index, max_field_id, required_ids, get_field,
}
use frugal.Decode.{decode_fixed_size_types}
use frugal.Decode.Required.{unset_all, first_unset}
use frugal.Decode.Runtime.{Runtime, decode_at, decode_elem, slice_from}
use frugal.Decode.Containers.{decode_map, decode_map_body, decode_entries, set_map_index, same_key}
use frugal.Decode.Fields.{
  decode_body, decode_fields, after_type, finish, decode_round, decode_field, known_field,
  decode_known, val_at, set_val, has_required,
}
use frugal.Decode.Walk.{decode_type, decode_struct, decode_case, init_struct, decode_object}
use frugal.Tests.{built}
use frugal.Tests.Decoder.{node_runtime}

-- struct Cell { 1: i32 }, and a map of cells held by value.
unfoldable cell : StructDesc
unfolding from_defs_fields fill_fields from_defs_field new_ttype_panics set_index tfield
    max_field_id elem_type
cell = built (
    from_defs_fields false false (
      record { offset = 0; id = 1; type = t_i32; nocopy = false; spec = default_req; init = none }
      ∷ []))

abbrev all_cells : ℕ → StructDesc
all_cells s = cell

abbrev cell_runtime : Runtime
cell_runtime = record node_runtime { tmp_vars = λ t. (num 0, struct (item (num 0) end) []) }

-- Two entries: the cell of key 1 has its field, the cell of key 2 has none on the wire and is given
-- the first one's.
stale_value :
    decode_type cell_runtime all_cells 3
      (t_map t_i32 (t_struct 0))
      (8 ∷ 12 ∷ 0 ∷ 0 ∷ 0 ∷ 2 ∷ 0 ∷ 0 ∷ 0 ∷ 1 ∷ 8 ∷ 0 ∷ 1 ∷ 0 ∷ 0 ∷ 0 ∷ 7 ∷ 0 ∷ 0 ∷ 0 ∷ 0 ∷ 2 ∷ 0
        ∷ [])
      nil
    ≡ ok (
      go_map 2 (
          entry
            (num 1)
            (struct (item (num 7) end) [])
            (entry (num 2) (struct (item (num 7) end) []) no_entries)),
      23,
    )
unfolding decode_type decode_struct decode_case decode_body unset_all from_defs_fields fill_fields
    from_defs_field new_ttype_panics set_index tfield max_field_id required_ids decode_fields
    read_byte after_type finish first_unset decode_map decode_map_body decode_entries set_map_index
    same_key equal equal_num bytes_eq decode_at decode_elem slice_from decode_round decode_field
    known_field decode_known val_at set_val has_required get_field decode_fixed_size_types
    read_uint16 read_uint32 is_pointer fixed_size type_to_size ttype_of is_enum tag wire_type
    ttype_code key_type elem_type struct_of init_struct min_wire_size cell sign_extend
stale_value = refl

-- A buffer without the stop byte.
no_stop : decode_object cell_runtime all_cells 0 [] (struct (item (num 0) end) []) ≡ panic
unfolding decode_object decode_type decode_struct decode_case decode_body unset_all from_defs_fields
    fill_fields from_defs_field new_ttype_panics set_index tfield max_field_id required_ids
    decode_fields read_byte after_type finish first_unset decode_map decode_map_body decode_entries
    set_map_index same_key equal equal_num bytes_eq decode_at decode_elem slice_from decode_round
    decode_field known_field decode_known val_at set_val has_required get_field
    decode_fixed_size_types read_uint16 read_uint32 is_pointer fixed_size type_to_size ttype_of
    is_enum tag wire_type ttype_code key_type elem_type struct_of init_struct min_wire_size cell
    sign_extend
no_stop = refl
