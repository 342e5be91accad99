-- ===== src/Tests/Prefetching.antt =====
-- Descriptors of structs that hold one another.
use frugal.Base.{
  ℕ, zero, suc, ◌≡◌, refl, sym, ◌∙◌, false, List, [], ◌∷◌, none, some, ok, err, stuck,
  invalid_field_number,
}
use mathlib.Core.Path.{subst}
use frugal.Wire.{Buf}
use frugal.Child.{bytes_eq}
use frugal.Types.{is_key_type, is_value_type, tag, elem_type, ttype_of, is_enum}
use frugal.Desc.{
  StructDesc, from_defs_fields, fill_fields, from_defs_field, new_ttype_panics, set_index, tfield,
  max_field_id,
}
use frugal.Parse
use frugal.Parse.{GoType, struct_type, slice_type, ptr_type, parse_type}
use frugal.Resolve
use frugal.Resolve.{StructField}
use frugal.Prefetch
use frugal.Prefetch.{
  StructType, by_value, by_pointer, StructInfo, new_struct_desc, Cache,
  new_struct_desc_and_prefetch,
}
use frugal.Prefetch.Keys.{Has, struct_types, Has-there, not_Has-nil}
use frugal.Prefetch.Calls.{Does, all_struct_types}
use frugal.Prefetch.Complete.{IsComplete, IsConsistent, IsClosed}
use frugal.Prefetch.Resolved.{IsFlatStruct}
use frugal.Prefetch.Reach.{
  Reaches, ok_inj, new_struct_desc_and_prefetch-ne-stuck, new_struct_desc_and_prefetch-Reaches,
  new_struct_desc_and_prefetch-err,
}

-- A field with a frugal tag.
abbrev tagged : Buf → GoType → StructField
tagged tag_text t = record {
  anonymous = false;
  private = false;
  frugal_tag = some tag_text;
  thrift_tag = none;
  go_type = t;
  offset = 0;
}

-- *Node, as the struct of a number.
abbrev pointer_to : ℕ → GoType
pointer_to s = ptr_type (struct_type (78 ∷ 111 ∷ 100 ∷ 101 ∷ []) s)

abbrev info_of : List StructField → StructInfo
info_of sfs = record { fields = sfs; defaults = none; init_func = false; unknown_fields = false }

abbrev one_optional : Buf
one_optional = 49 ∷ 44 ∷ 111 ∷ 112 ∷ 116 ∷ 105 ∷ 111 ∷ 110 ∷ 97 ∷ 108 ∷ []

-- Next *Node `frugal:"1,optional"`; Peers []*Node `frugal:"2,default,list<Node>"`.
abbrev node_info : StructInfo
node_info = info_of (
    tagged one_optional (pointer_to 0)
    ∷ tagged
        (50 ∷ 44 ∷ 100 ∷ 101 ∷ 102 ∷ 97 ∷ 117 ∷ 108 ∷ 116 ∷ 44 ∷ 108 ∷ 105 ∷ 115 ∷ 116 ∷ 60 ∷ 78
          ∷ 111 ∷ 100 ∷ 101 ∷ 62 ∷ [])
        (slice_type [] (pointer_to 1))
    ∷ [])

abbrev node_infos : ℕ → StructInfo
node_infos s = node_info

unfoldable node_sd : StructDesc
unfolding Resolve.split_commas Resolve.trim_left Resolve.trim_right Resolve.trim_spaces
    Resolve.lookup_struct_tag Resolve.digits Resolve.parse_uint16 Resolve.has_id
    Resolve.requiredness Resolve.scan_options Resolve.described_field Resolve.tagged_field
    Resolve.resolve_field Resolve.resolve_fields Resolve.insert_field Resolve.sort_fields
    Resolve.do_resolve_fields parse_type Parse.do_parse_type Parse.parse_map Parse.parse_simple
    Parse.match_type Parse.match_token Parse.do_match_struct Parse.do_parse_slice Parse.set_or_list
    Parse.map_delimiter Parse.delimiter Parse.read_token Parse.token_at Parse.skip_spaces
    Parse.is_space Parse.isident0 Parse.isident Parse.ident_len Parse.contains Parse.has_prefix
    Parse.starts_ident Parse.keyword_tab Parse.tag_of_kind Parse.enum_tag Parse.is_byte Parse.is_i64
    bytes_eq is_key_type is_value_type tag from_defs_fields fill_fields from_defs_field
    new_ttype_panics set_index tfield max_field_id elem_type new_struct_desc
node_sd = elim (new_struct_desc node_info) [
  | ok d ↦ d
  | _ ↦ record {
    max_id = 0;
    field_idx = [];
    fields = [];
    has_init_func = false;
    has_unknown_fields = false;
    fixed_len_field_size = 0;
    var_len_fields = [];
    required_field_ids = [];
  }
]

node_described : new_struct_desc node_info ≡ ok node_sd
unfolding Resolve.split_commas Resolve.trim_left Resolve.trim_right Resolve.trim_spaces
    Resolve.lookup_struct_tag Resolve.digits Resolve.parse_uint16 Resolve.has_id
    Resolve.requiredness Resolve.scan_options Resolve.described_field Resolve.tagged_field
    Resolve.resolve_field Resolve.resolve_fields Resolve.insert_field Resolve.sort_fields
    Resolve.do_resolve_fields parse_type Parse.do_parse_type Parse.parse_map Parse.parse_simple
    Parse.match_type Parse.match_token Parse.do_match_struct Parse.do_parse_slice Parse.set_or_list
    Parse.map_delimiter Parse.delimiter Parse.read_token Parse.token_at Parse.skip_spaces
    Parse.is_space Parse.isident0 Parse.isident Parse.ident_len Parse.contains Parse.has_prefix
    Parse.starts_ident Parse.keyword_tab Parse.tag_of_kind Parse.enum_tag Parse.is_byte Parse.is_i64
    bytes_eq is_key_type is_value_type tag from_defs_fields fill_fields from_defs_field
    new_ttype_panics set_index tfield max_field_id elem_type new_struct_desc node_sd
node_described = refl

abbrev node_types : List StructType
node_types = by_value 0 ∷ by_pointer 0 ∷ by_pointer 1 ∷ []

node_types-IsClosed : IsClosed node_infos node_types
unfolding node_sd struct_types Resolve.split_commas Resolve.trim_left Resolve.trim_right
    Resolve.trim_spaces Resolve.lookup_struct_tag Resolve.digits Resolve.parse_uint16 Resolve.has_id
    Resolve.requiredness Resolve.scan_options Resolve.described_field Resolve.tagged_field
    Resolve.resolve_field Resolve.resolve_fields Resolve.insert_field Resolve.sort_fields
    Resolve.do_resolve_fields parse_type Parse.do_parse_type Parse.parse_map Parse.parse_simple
    Parse.match_type Parse.match_token Parse.do_match_struct Parse.do_parse_slice Parse.set_or_list
    Parse.map_delimiter Parse.delimiter Parse.read_token Parse.token_at Parse.skip_spaces
    Parse.is_space Parse.isident0 Parse.isident Parse.ident_len Parse.contains Parse.has_prefix
    Parse.starts_ident Parse.keyword_tab Parse.tag_of_kind Parse.enum_tag Parse.is_byte Parse.is_i64
    bytes_eq is_key_type is_value_type tag from_defs_fields fill_fields from_defs_field
    new_ttype_panics set_index tfield max_field_id elem_type new_struct_desc
node_types-IsClosed k sd u e j q =
    let p : sd ≡ node_sd = ok_inj sd node_sd (sym e ∙ node_described) in
    Has-there (by_value 0) j (by_pointer 0 ∷ by_pointer 1 ∷ [])
      (subst (λ x. Has (all_struct_types x.fields) j) p q)

abbrev no_cache : Cache
no_cache = record { descs = []; linked = [] }

node_infos-IsFlat : (s : ℕ) → IsFlatStruct (node_infos s).fields
node_infos-IsFlat s = (tt, (tt, tt))

no_cache-IsConsistent : IsConsistent node_infos [] no_cache
no_cache-IsConsistent = (λ k h. absurd (not_Has-nil k h), λ k h. absurd (not_Has-nil k h))

new_struct_desc_and_prefetch-ne-stuck_example :
    (new_struct_desc_and_prefetch node_infos 4 (by_value 0) no_cache).0 ≡ stuck → ⊥
unfolding Prefetch.has_type Prefetch.same_type
new_struct_desc_and_prefetch-ne-stuck_example =
    new_struct_desc_and_prefetch-ne-stuck node_infos node_types node_types-IsClosed
      node_infos-IsFlat (by_value 0) no_cache refl

new_struct_desc_and_prefetch-Reaches_example :
    Does
      (λ c'.
        Has c'.descs (by_value 0)
        × IsConsistent node_infos [] c'
        × ((j : StructType)
            → Reaches node_infos (by_value 0) j
            → Has c'.linked j × IsComplete node_infos c' j))
      (new_struct_desc_and_prefetch node_infos 4 (by_value 0) no_cache)
unfolding Prefetch.has_type Prefetch.same_type
new_struct_desc_and_prefetch-Reaches_example =
    new_struct_desc_and_prefetch-Reaches node_infos node_types node_types-IsClosed node_infos-IsFlat
      (by_value 0) no_cache refl no_cache-IsConsistent

-- The call on that example succeeds.
node_prefetched : (new_struct_desc_and_prefetch node_infos 4 (by_value 0) no_cache).0 ≡ ok tt
unfolding Resolve.split_commas Resolve.trim_left Resolve.trim_right Resolve.trim_spaces
    Resolve.lookup_struct_tag Resolve.digits Resolve.parse_uint16 Resolve.has_id
    Resolve.requiredness Resolve.scan_options Resolve.described_field Resolve.tagged_field
    Resolve.resolve_field Resolve.resolve_fields Resolve.insert_field Resolve.sort_fields
    Resolve.do_resolve_fields parse_type Parse.do_parse_type Parse.parse_map Parse.parse_simple
    Parse.match_type Parse.match_token Parse.do_match_struct Parse.do_parse_slice Parse.set_or_list
    Parse.map_delimiter Parse.delimiter Parse.read_token Parse.token_at Parse.skip_spaces
    Parse.is_space Parse.isident0 Parse.isident Parse.ident_len Parse.contains Parse.has_prefix
    Parse.starts_ident Parse.keyword_tab Parse.tag_of_kind Parse.enum_tag Parse.is_byte Parse.is_i64
    bytes_eq is_key_type is_value_type tag from_defs_fields fill_fields from_defs_field
    new_ttype_panics set_index tfield max_field_id elem_type Prefetch.has_type Prefetch.same_type
    Prefetch.number Prefetch.link Prefetch.fetch_struct_desc Prefetch.has_sub_types
    Prefetch.prefetch_sub_struct_desc Prefetch.delete Prefetch.or_delete
    new_struct_desc_and_prefetch new_struct_desc ttype_of is_enum
node_prefetched = refl

-- Struct 0 has fields of struct 1 and of struct 2, whose field 1 has no number in its tag; structs 1
-- and 3 have fields of struct 0 and of struct 1.
abbrev bad_infos : ℕ → StructInfo
bad_infos zero = info_of (
    tagged one_optional (pointer_to 1)
    ∷ tagged (50 ∷ 44 ∷ 111 ∷ 112 ∷ 116 ∷ 105 ∷ 111 ∷ 110 ∷ 97 ∷ 108 ∷ []) (pointer_to 2)
    ∷ [])
bad_infos (suc zero) = info_of (tagged one_optional (pointer_to 0) ∷ [])
bad_infos (suc (suc zero)) = info_of (tagged (120 ∷ []) (pointer_to 0) ∷ [])
bad_infos _ = info_of (tagged one_optional (pointer_to 1) ∷ [])

abbrev after_error : Cache
after_error = record { descs = []; linked = by_pointer 1 ∷ [] }

-- The Sd of the pointer to struct 1 stays.
bad_struct_fails :
    new_struct_desc_and_prefetch bad_infos 8 (by_value 0) no_cache
    ≡ (err invalid_field_number, after_error)
unfolding Resolve.split_commas Resolve.trim_left Resolve.trim_right Resolve.trim_spaces
    Resolve.lookup_struct_tag Resolve.digits Resolve.parse_uint16 Resolve.has_id
    Resolve.requiredness Resolve.scan_options Resolve.described_field Resolve.tagged_field
    Resolve.resolve_field Resolve.resolve_fields Resolve.insert_field Resolve.sort_fields
    Resolve.do_resolve_fields parse_type Parse.do_parse_type Parse.parse_map Parse.parse_simple
    Parse.match_type Parse.match_token Parse.do_match_struct Parse.do_parse_slice Parse.set_or_list
    Parse.map_delimiter Parse.delimiter Parse.read_token Parse.token_at Parse.skip_spaces
    Parse.is_space Parse.isident0 Parse.isident Parse.ident_len Parse.contains Parse.has_prefix
    Parse.starts_ident Parse.keyword_tab Parse.tag_of_kind Parse.enum_tag Parse.is_byte Parse.is_i64
    bytes_eq is_key_type is_value_type tag from_defs_fields fill_fields from_defs_field
    new_ttype_panics set_index tfield max_field_id elem_type Prefetch.has_type Prefetch.same_type
    Prefetch.number Prefetch.link Prefetch.fetch_struct_desc Prefetch.has_sub_types
    Prefetch.prefetch_sub_struct_desc Prefetch.delete Prefetch.or_delete
    new_struct_desc_and_prefetch new_struct_desc ttype_of is_enum
bad_struct_fails = refl

new_struct_desc_and_prefetch-err_example : Prefetch.has_type after_error.descs (by_value 0) ≡ false
new_struct_desc_and_prefetch-err_example =
    new_struct_desc_and_prefetch-err bad_infos 8 (by_value 0) no_cache after_error
      invalid_field_number bad_struct_fails

-- Struct 3, which holds struct 1, fails before that error, and succeeds after it.
holder_fails :
    (new_struct_desc_and_prefetch bad_infos 8 (by_value 3) no_cache).0 ≡ err invalid_field_number
unfolding Resolve.split_commas Resolve.trim_left Resolve.trim_right Resolve.trim_spaces
    Resolve.lookup_struct_tag Resolve.digits Resolve.parse_uint16 Resolve.has_id
    Resolve.requiredness Resolve.scan_options Resolve.described_field Resolve.tagged_field
    Resolve.resolve_field Resolve.resolve_fields Resolve.insert_field Resolve.sort_fields
    Resolve.do_resolve_fields parse_type Parse.do_parse_type Parse.parse_map Parse.parse_simple
    Parse.match_type Parse.match_token Parse.do_match_struct Parse.do_parse_slice Parse.set_or_list
    Parse.map_delimiter Parse.delimiter Parse.read_token Parse.token_at Parse.skip_spaces
    Parse.is_space Parse.isident0 Parse.isident Parse.ident_len Parse.contains Parse.has_prefix
    Parse.starts_ident Parse.keyword_tab Parse.tag_of_kind Parse.enum_tag Parse.is_byte Parse.is_i64
    bytes_eq is_key_type is_value_type tag from_defs_fields fill_fields from_defs_field
    new_ttype_panics set_index tfield max_field_id elem_type Prefetch.has_type Prefetch.same_type
    Prefetch.number Prefetch.link Prefetch.fetch_struct_desc Prefetch.has_sub_types
    Prefetch.prefetch_sub_struct_desc Prefetch.delete Prefetch.or_delete
    new_struct_desc_and_prefetch new_struct_desc ttype_of is_enum
holder_fails = refl

holder_passes_after_error :
    new_struct_desc_and_prefetch bad_infos 8 (by_value 3) after_error
    ≡ (ok tt, record { descs = by_value 3 ∷ []; linked = by_pointer 1 ∷ [] })
unfolding Resolve.split_commas Resolve.trim_left Resolve.trim_right Resolve.trim_spaces
    Resolve.lookup_struct_tag Resolve.digits Resolve.parse_uint16 Resolve.has_id
    Resolve.requiredness Resolve.scan_options Resolve.described_field Resolve.tagged_field
    Resolve.resolve_field Resolve.resolve_fields Resolve.insert_field Resolve.sort_fields
    Resolve.do_resolve_fields parse_type Parse.do_parse_type Parse.parse_map Parse.parse_simple
    Parse.match_type Parse.match_token Parse.do_match_struct Parse.do_parse_slice Parse.set_or_list
    Parse.map_delimiter Parse.delimiter Parse.read_token Parse.token_at Parse.skip_spaces
    Parse.is_space Parse.isident0 Parse.isident Parse.ident_len Parse.contains Parse.has_prefix
    Parse.starts_ident Parse.keyword_tab Parse.tag_of_kind Parse.enum_tag Parse.is_byte Parse.is_i64
    bytes_eq is_key_type is_value_type tag from_defs_fields fill_fields from_defs_field
    new_ttype_panics set_index tfield max_field_id elem_type Prefetch.has_type Prefetch.same_type
    Prefetch.number Prefetch.link Prefetch.fetch_struct_desc Prefetch.has_sub_types
    Prefetch.prefetch_sub_struct_desc Prefetch.delete Prefetch.or_delete
    new_struct_desc_and_prefetch new_struct_desc ttype_of is_enum
holder_passes_after_error = refl
