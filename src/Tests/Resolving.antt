-- ===== src/Tests/Resolving.antt =====
-- The resolver of fields on a sample struct.
use frugal.Base.{◌≡◌, refl, true, false, List, [], ◌∷◌, none, some, ok, panic, All}
use frugal.Child.{bytes_eq}
use frugal.Types.{t_string, t_i32, t_map, t_pointer, is_key_type, is_value_type, tag, elem_type}
use frugal.Desc.{
  Field, StructDesc, default_req, optional, from_defs_fields, fill_fields, from_defs_field,
  new_ttype_panics, set_index, tfield, max_field_id,
}
use frugal.Desc.Table.{IsTable}
use frugal.Parse
use frugal.Parse.{GoType, basic, ptr_type, string_kind, int32_kind, parse_type}
use frugal.Resolve
use frugal.Resolve.{StructField, do_resolve_fields}
use frugal.Resolve.Order.{IsAscending}
use frugal.Resolve.Ids.{IsAllowed, do_resolve_fields-IsAscending, do_resolve_fields-IsTable}

-- Age *int32 `frugal:"7, optional, i32"`; Name string `thrift:"name,1"`; and a private field.
abbrev pub struct_fields : List StructField
struct_fields =
    record {
      anonymous = false;
      private = false;
      frugal_tag = some (
          55 ∷ 44 ∷ 32 ∷ 111 ∷ 112 ∷ 116 ∷ 105 ∷ 111 ∷ 110 ∷ 97 ∷ 108 ∷ 44 ∷ 32 ∷ 105 ∷ 51 ∷ 50
          ∷ []);
      thrift_tag = none;
      go_type = ptr_type (basic true int32_kind (105 ∷ 110 ∷ 116 ∷ 51 ∷ 50 ∷ []));
      offset = 0;
    }
    ∷ record {
      anonymous = false;
      private = false;
      frugal_tag = none;
      thrift_tag = some (110 ∷ 97 ∷ 109 ∷ 101 ∷ 44 ∷ 49 ∷ []);
      go_type = basic true string_kind (115 ∷ 116 ∷ 114 ∷ 105 ∷ 110 ∷ 103 ∷ []);
      offset = 1;
    }
    ∷ record {
      anonymous = false;
      private = true;
      frugal_tag = some (49 ∷ []);
      thrift_tag = none;
      go_type = basic true string_kind (115 ∷ 116 ∷ 114 ∷ 105 ∷ 110 ∷ 103 ∷ []);
      offset = 2;
    }
    ∷ []

abbrev pub resolved_fields : List Field
resolved_fields =
    record { offset = 1; id = 1; type = t_string; nocopy = false; spec = default_req; init = none }
    ∷ record {
      offset = 0;
      id = 7;
      type = t_pointer t_i32;
      nocopy = false;
      spec = optional;
      init = none;
    }
    ∷ []

pub struct_resolved : do_resolve_fields none struct_fields ≡ ok resolved_fields
unfolding Resolve.split_commas Resolve.trim_left Resolve.trim_right Resolve.trim_spaces
    Resolve.lookup_struct_tag Resolve.digits Resolve.parse_uint16 Resolve.has_id
    Resolve.requiredness Resolve.scan_options Resolve.described_field Resolve.tagged_field
    Resolve.resolve_field Resolve.resolve_fields Resolve.insert_field Resolve.sort_fields
    do_resolve_fields parse_type Parse.do_parse_type Parse.parse_map Parse.parse_simple
    Parse.match_type Parse.match_token Parse.do_match_struct Parse.do_parse_slice Parse.set_or_list
    Parse.map_delimiter Parse.delimiter Parse.read_token Parse.token_at Parse.skip_spaces
    Parse.is_space Parse.isident0 Parse.isident Parse.ident_len Parse.contains Parse.has_prefix
    Parse.starts_ident Parse.keyword_tab Parse.tag_of_kind Parse.enum_tag Parse.is_byte Parse.is_i64
    bytes_eq is_key_type is_value_type tag
struct_resolved = refl

unfoldable pub resolved_desc : StructDesc
unfolding from_defs_fields fill_fields from_defs_field new_ttype_panics set_index tfield
    max_field_id elem_type
resolved_desc = elim (from_defs_fields false false resolved_fields) [
  | ok d ↦ d
  | _ ↦ record {
    max_id = 0;
    field_idx = [];
    fields = [];
    has_init_func = false;
    has_unknown_fields = false;
    fixed_len_field_size = 0;
    var_len_fields = [];
    required_field_ids = [];
  }
]

pub resolved_built : from_defs_fields false false resolved_fields ≡ ok resolved_desc
unfolding resolved_desc from_defs_fields fill_fields from_defs_field new_ttype_panics set_index
    tfield max_field_id elem_type
resolved_built = refl

-- An optional field of the type *map[int32]string.
map_pointer_panics :
    from_defs_field (record {
      offset = 0;
      id = 1;
      type = t_pointer (t_map t_i32 t_string);
      nocopy = false;
      spec = optional;
      init = none;
    })
    ≡ panic
unfolding from_defs_field new_ttype_panics elem_type tag
map_pointer_panics = refl

do_resolve_fields-IsAscending_example : IsAscending resolved_fields × All IsAllowed resolved_fields
do_resolve_fields-IsAscending_example =
    do_resolve_fields-IsAscending none struct_fields struct_resolved

do_resolve_fields-IsTable_example : IsTable resolved_desc
do_resolve_fields-IsTable_example =
    do_resolve_fields-IsTable none struct_fields false false struct_resolved resolved_built
