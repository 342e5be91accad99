-- ===== src/Tests/Parsing.antt =====
-- Type descriptors, parsed on sample Go types.
use frugal.Base.{ℕ, ◌≡◌, refl, true, false, [], ◌∷◌, ok, panic, Answers}
use frugal.Wire.{Buf}
use frugal.Child.{bytes_eq}
use frugal.Types.{t_string, t_struct, t_map, t_list, t_pointer, t_enum, is_key_type, is_value_type}
use frugal.Parse
use frugal.Parse.{
  GoKind, GoType, basic, struct_type, map_type, slice_type, ptr_type, string_kind, int64_kind,
  uint8_kind, parse_type,
}
use frugal.Parse.Fits.{Fits, parse_type-Answers}
use frugal.Names.{type_string}
use frugal.Names.Distinct.{type_string-parse_type}

-- map[string][]*Node, and `map<string: list<Node>>`.
abbrev nodes_by_name : GoType
nodes_by_name =
    map_type [] (basic true string_kind (115 ∷ 116 ∷ 114 ∷ 105 ∷ 110 ∷ 103 ∷ []))
      (slice_type [] (ptr_type (struct_type (78 ∷ 111 ∷ 100 ∷ 101 ∷ []) 0)))

abbrev nodes_descriptor : Buf
nodes_descriptor =
    109 ∷ 97 ∷ 112 ∷ 60 ∷ 115 ∷ 116 ∷ 114 ∷ 105 ∷ 110 ∷ 103 ∷ 58 ∷ 32 ∷ 108 ∷ 105 ∷ 115 ∷ 116 ∷ 60
    ∷ 78 ∷ 111 ∷ 100 ∷ 101 ∷ 62 ∷ 62 ∷ []

nodes_parsed :
    parse_type nodes_by_name nodes_descriptor
    ≡ ok (t_map t_string (t_list (t_pointer (t_struct 0))))
unfolding parse_type Parse.do_parse_type Parse.parse_map Parse.parse_simple Parse.match_type
    Parse.match_token Parse.do_match_struct Parse.do_parse_slice Parse.set_or_list
    Parse.map_delimiter Parse.delimiter Parse.read_token Parse.token_at Parse.skip_spaces
    Parse.is_space Parse.isident0 Parse.isident Parse.ident_len Parse.contains Parse.has_prefix
    Parse.starts_ident Parse.keyword_tab Parse.tag_of_kind Parse.enum_tag Parse.is_byte Parse.is_i64
    bytes_eq is_key_type is_value_type
nodes_parsed = refl

parse_type-Answers_example :
    Answers (Fits nodes_by_name) (parse_type nodes_by_name nodes_descriptor)
parse_type-Answers_example = parse_type-Answers nodes_by_name nodes_descriptor (tt, tt)

-- A named int64 with `a.Color` is an enum, and an i64 with `i64`.
abbrev color : GoType
color = basic false int64_kind (67 ∷ 111 ∷ 108 ∷ 111 ∷ 114 ∷ [])

color_parsed : parse_type color (97 ∷ 46 ∷ 67 ∷ 111 ∷ 108 ∷ 111 ∷ 114 ∷ []) ≡ ok t_enum
unfolding parse_type Parse.do_parse_type Parse.parse_map Parse.parse_simple Parse.match_type
    Parse.match_token Parse.do_match_struct Parse.do_parse_slice Parse.set_or_list
    Parse.map_delimiter Parse.delimiter Parse.read_token Parse.token_at Parse.skip_spaces
    Parse.is_space Parse.isident0 Parse.isident Parse.ident_len Parse.contains Parse.has_prefix
    Parse.starts_ident Parse.keyword_tab Parse.tag_of_kind Parse.enum_tag Parse.is_byte Parse.is_i64
    bytes_eq is_key_type is_value_type
color_parsed = refl

-- `str` is taken for `string`, of which it is a part.
part_of_keyword : parse_type (basic true string_kind []) (115 ∷ 116 ∷ 114 ∷ []) ≡ ok t_string
unfolding parse_type Parse.do_parse_type Parse.parse_map Parse.parse_simple Parse.match_type
    Parse.match_token Parse.do_match_struct Parse.do_parse_slice Parse.set_or_list
    Parse.map_delimiter Parse.delimiter Parse.read_token Parse.token_at Parse.skip_spaces
    Parse.is_space Parse.isident0 Parse.isident Parse.ident_len Parse.contains Parse.has_prefix
    Parse.starts_ident Parse.keyword_tab Parse.tag_of_kind Parse.enum_tag Parse.is_byte Parse.is_i64
    bytes_eq is_key_type is_value_type
part_of_keyword = refl

-- A pointer to a pointer.
nested_pointer : parse_type (ptr_type (ptr_type color)) [] ≡ panic
unfolding parse_type Parse.do_parse_type Parse.parse_map Parse.parse_simple Parse.match_type
    Parse.match_token Parse.do_match_struct Parse.do_parse_slice Parse.set_or_list
    Parse.map_delimiter Parse.delimiter Parse.read_token Parse.token_at Parse.skip_spaces
    Parse.is_space Parse.isident0 Parse.isident Parse.ident_len Parse.contains Parse.has_prefix
    Parse.starts_ident Parse.keyword_tab Parse.tag_of_kind Parse.enum_tag Parse.is_byte Parse.is_i64
    bytes_eq is_key_type is_value_type
nested_pointer = refl

-- The same without the space.
abbrev dense_descriptor : Buf
dense_descriptor =
    109 ∷ 97 ∷ 112 ∷ 60 ∷ 115 ∷ 116 ∷ 114 ∷ 105 ∷ 110 ∷ 103 ∷ 58 ∷ 108 ∷ 105 ∷ 115 ∷ 116 ∷ 60 ∷ 78
    ∷ 111 ∷ 100 ∷ 101 ∷ 62 ∷ 62 ∷ []

dense_parsed :
    parse_type nodes_by_name dense_descriptor
    ≡ ok (t_map t_string (t_list (t_pointer (t_struct 0))))
unfolding parse_type Parse.do_parse_type Parse.parse_map Parse.parse_simple Parse.match_type
    Parse.match_token Parse.do_match_struct Parse.do_parse_slice Parse.set_or_list
    Parse.map_delimiter Parse.delimiter Parse.read_token Parse.token_at Parse.skip_spaces
    Parse.is_space Parse.isident0 Parse.isident Parse.ident_len Parse.contains Parse.has_prefix
    Parse.starts_ident Parse.keyword_tab Parse.tag_of_kind Parse.enum_tag Parse.is_byte Parse.is_i64
    bytes_eq is_key_type is_value_type
dense_parsed = refl

abbrev node_name : ℕ → Buf
node_name s = 78 ∷ 111 ∷ 100 ∷ 101 ∷ []

type_string-parse_type_example :
    t_map t_string (t_list (t_pointer (t_struct 0)))
    ≡ t_map t_string (t_list (t_pointer (t_struct 0)))
unfolding type_string
type_string-parse_type_example =
    type_string-parse_type node_name nodes_by_name nodes_descriptor dense_descriptor
      (t_map t_string (t_list (t_pointer (t_struct 0))))
      (t_map t_string (t_list (t_pointer (t_struct 0)))) (tt, tt) nodes_parsed dense_parsed refl
