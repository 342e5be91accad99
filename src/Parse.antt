-- ===== src/Parse.antt =====
-- The parser of type descriptors, internal/defs/types.go, on a Go type. `i` is the position in the
-- descriptor `def` that the source keeps behind a pointer; an error keeps the position of a
-- SyntaxError, and no text.
pub mod Tokens
pub mod Fits
use frugal.Base.{
  ℕ, zero, suc, ◌+◌, ◌-◌, Bool, true, false, ◌&&◌, ◌||◌, List, [], ◌∷◌, ◌++◌, length, take, drop,
}
use frugal.Base.{
  Outcome, ok, err, panic, ◌>>=◌, ltb, leb, ◌==◌, if◌then◌else◌, syntax_error, type_error,
}
use mathlib.Core.Bool.{not}
use frugal.Wire.{Buf}
use frugal.Child.{bytes_eq}
use frugal.Types.{
  DefType, t_bool, t_i8, t_double, t_i16, t_i32, t_i64, t_string, t_enum, t_binary, t_struct, t_map,
  t_set, t_list, t_pointer,
}
use frugal.Types.{is_key_type, is_value_type}

-- reflect.Kind of the types without parts; `unsupported` are the kinds that no case names.
pub data GoKind : Type 0 where
  bool_kind int_kind int8_kind int16_kind int32_kind int64_kind : GoKind
  uint_kind uint8_kind uint16_kind uint32_kind uint64_kind : GoKind
  float32_kind float64_kind string_kind unsupported : GoKind

-- reflect.Type, with the name that Name returns; `basic true` is a predeclared type. Structs may hold
-- themselves, by their number. A Go type that holds itself in another way, such as
-- `type M map[string]M`, is no GoType: on it, with an empty descriptor, doParseType never returns.
pub data GoType : Type 0 where
  basic : Bool → GoKind → Buf → GoType
  struct_type : Buf → ℕ → GoType
  map_type : Buf → GoType → GoType → GoType
  slice_type : Buf → GoType → GoType
  array_type ptr_type : GoType → GoType

unfoldable pub is_byte : GoType → Bool
is_byte (basic true uint8_kind name) = true
is_byte _ = false

unfoldable pub is_i64 : GoType → Bool
is_i64 (basic true int64_kind name) = true
is_i64 _ = false

unfoldable pub isident0 : ℕ → Bool
isident0 c = (c == 95) || ((leb 97 c && leb c 122) || (leb 65 c && leb c 90))

unfoldable pub isident : ℕ → Bool
unfolding isident0
isident c = isident0 c || (leb 48 c && leb c 57)

-- unicode.IsSpace below 256.
unfoldable pub is_space : ℕ → Bool
is_space c = (leb 9 c && leb c 13) || ((c == 32) || ((c == 133) || (c == 160)))

unfoldable pub skip_spaces : Buf → ℕ
skip_spaces [] = 0
skip_spaces (c ∷ cs) = let n = skip_spaces cs in if is_space c then suc n else 0

unfoldable pub ident_len : Buf → ℕ
ident_len [] = 0
ident_len (c ∷ cs) = let n = ident_len cs in if isident c then suc n else 0

-- A token from `cs`, the rest of the source at p behind the spaces.
unfoldable pub token_at : Bool → ℕ → ℕ → Buf → Outcome (Buf × ℕ)
token_at eofok i p [] = if eofok then ok ([], i) else err (syntax_error p)
token_at eofok i p (c ∷ cs) =
    let n = if isident0 c then ident_len cs else 0 in ok (c ∷ take n cs, p + suc n)

unfoldable pub read_token : Buf → ℕ → Bool → Outcome (Buf × ℕ)
read_token src i eofok = let p = i + skip_spaces (drop i src) in token_at eofok i p (drop p src)

-- strings.Contains.
unfoldable pub has_prefix : Buf → Buf → Bool
has_prefix s [] = true
has_prefix [] (x ∷ t) = false
has_prefix (y ∷ s) (x ∷ t) = x == y && has_prefix s t

unfoldable pub contains : Buf → Buf → Bool
contains [] t = has_prefix [] t
contains (y ∷ s) t = has_prefix (y ∷ s) t || contains s t

unfoldable pub starts_ident : Buf → Outcome Bool
starts_ident [] = panic
starts_ident (c ∷ cs) = ok (isident0 c)

-- doMatchStruct, for a type of a name: whether it matches, with tv and the position after it;
-- `match_token` is what follows the token behind tv, which ends at sp.
unfoldable pub match_token : Buf → Bool → Buf → ℕ → Buf → Buf → ℕ → Outcome (Bool × Buf × ℕ)
match_token tn is_struct def i tv tok sp =
    if bytes_eq tn [] && is_struct
    then ok (true, tv, i)
    else if bytes_eq tok [] || (bytes_eq tok (58 ∷ []) || bytes_eq tok (62 ∷ []))
    then ok (bytes_eq tn tv, tv, i)
    else if not (bytes_eq tok (46 ∷ []))
    then err (syntax_error sp)
    else do
      (tv', sp') ← read_token def sp false
      ident ← starts_ident tv'
      if ident then ok (bytes_eq tn tv', tv', sp') else err (syntax_error sp')

unfoldable pub do_match_struct : Buf → Bool → Buf → ℕ → Buf → Outcome (Bool × Buf × ℕ)
do_match_struct tn is_struct def i tv = do
  (tok, sp) ← read_token def i true
  match_token tn is_struct def i tv tok sp

-- `match the type if any`: the position behind it, and whether the type's own name matched.
unfoldable pub match_type : Buf → Bool → Buf → Buf → ℕ → Outcome (Bool × ℕ)
match_type tn is_struct keyword def i = if bytes_eq def [] then ok (false, i) else do
  (tv, i₁) ← read_token def i false
  if contains keyword tv then ok (false, i₁) else do
    ident ← starts_ident tv
    if not ident then err (syntax_error (i₁ - length tv)) else do
      (matched, tv', i₂) ← do_match_struct tn is_struct def i₁ tv
      if matched then ok (true, i₂) else err (syntax_error (i₂ - length tv'))

-- A delimiter, which is read only if there is a descriptor.
unfoldable pub delimiter : ℕ → Buf → ℕ → Outcome ℕ
delimiter c def i = do
  (tk, i') ← read_token def i false
  if bytes_eq tk (c ∷ []) then ok i' else err (syntax_error (i' - length tk))

unfoldable pub map_delimiter : ℕ → Buf → ℕ → Outcome ℕ
map_delimiter c def i = if bytes_eq def [] then ok i else delimiter c def i

-- The entries of keywordTab.
unfoldable pub keyword_tab : DefType → Buf
keyword_tab t_bool = 98 ∷ 111 ∷ 111 ∷ 108 ∷ []
keyword_tab t_i8 = 105 ∷ 56 ∷ 32 ∷ 98 ∷ 121 ∷ 116 ∷ 101 ∷ []
keyword_tab t_double = 100 ∷ 111 ∷ 117 ∷ 98 ∷ 108 ∷ 101 ∷ []
keyword_tab t_i16 = 105 ∷ 49 ∷ 54 ∷ []
keyword_tab t_i32 = 105 ∷ 51 ∷ 50 ∷ []
keyword_tab t_i64 = 105 ∷ 54 ∷ 52 ∷ []
keyword_tab t_string = 115 ∷ 116 ∷ 114 ∷ 105 ∷ 110 ∷ 103 ∷ []
keyword_tab t_binary = 98 ∷ 105 ∷ 110 ∷ 97 ∷ 114 ∷ 121 ∷ []
keyword_tab (t_struct s) = 115 ∷ 116 ∷ 114 ∷ 117 ∷ 99 ∷ 116 ∷ []
keyword_tab (t_map k v) = 109 ∷ 97 ∷ 112 ∷ []
keyword_tab _ = []

-- The tag of a kind, as a type, on a machine of 64 bits; the other kinds are refused.
unfoldable pub tag_of_kind : GoKind → Outcome DefType
tag_of_kind bool_kind = ok t_bool
tag_of_kind int_kind = ok t_i64
tag_of_kind int8_kind = ok t_i8
tag_of_kind int16_kind = ok t_i16
tag_of_kind int32_kind = ok t_i32
tag_of_kind int64_kind = ok t_i64
tag_of_kind float64_kind = ok t_double
tag_of_kind string_kind = ok t_string
tag_of_kind _ = err type_error

-- `tag == T_i64 && vt != i64type`, where the type's own name matched.
unfoldable pub enum_tag : DefType → Bool → Bool → DefType
enum_tag t_i64 by_name i64 = if by_name && not i64 then t_enum else t_i64
enum_tag t by_name i64 = t

-- A simple type: its tag, checked against the descriptor.
unfoldable pub parse_simple : Buf → Bool → Bool → DefType → Buf → ℕ → Outcome (DefType × ℕ)
parse_simple tn is_struct i64 t def i = do
  (by_name, i') ← match_type tn is_struct (keyword_tab t) def i
  ok (enum_tag t by_name i64, i')

-- The two parts of a map, with the parsers of its key and its value.
unfoldable pub parse_map :
    Buf
    → (ℕ → Outcome (DefType × ℕ))
    → (ℕ → Outcome (DefType × ℕ))
    → Buf
    → ℕ
    → Outcome (DefType × ℕ)
parse_map tn parse_key parse_value def i = do
  (_, i₁) ← match_type tn false (keyword_tab (t_map t_bool t_bool)) def i
  i₂ ← map_delimiter 60 def i₁
  (k, i₃) ← parse_key i₂
  if not (is_key_type k) then err type_error else do
    i₄ ← map_delimiter 58 def i₃
    (v, i₅) ← parse_value i₄
    i₆ ← map_delimiter 62 def i₅
    if not (is_value_type v) then err type_error else ok (t_map k v, i₆)

-- doParseSlice, with the parser of the element.
unfoldable pub set_or_list : Buf → ℕ → Outcome (DefType → DefType)
set_or_list tok i =
    if bytes_eq tok (115 ∷ 101 ∷ 116 ∷ [])
    then ok t_set
    else if bytes_eq tok (108 ∷ 105 ∷ 115 ∷ 116 ∷ [])
    then ok t_list
    else err (syntax_error (i - length tok))

unfoldable pub do_parse_slice : (ℕ → Outcome (DefType × ℕ)) → Buf → ℕ → Outcome (DefType × ℕ)
do_parse_slice parse_elem def i = do
  (tok, i₁) ← read_token def i false
  make ← set_or_list tok i₁
  i₂ ← delimiter 60 def i₁
  (v, i₃) ← parse_elem i₂
  i₄ ← delimiter 62 def i₃
  if not (is_value_type v) then err type_error else ok (make v, i₄)

-- doParseType. On a nested pointer it reads the field S of the nil pointer ret.V.
unfoldable pub do_parse_type : GoType → Buf → ℕ → Bool → Outcome (DefType × ℕ)
do_parse_type (ptr_type vt) def i allow_ptrs = elim allow_ptrs [
  | true ↦ (do (t, i') ← do_parse_type vt def i false; ok (t_pointer t, i'))
  | false ↦ panic
]
do_parse_type (basic declared k tn) def i allow_ptrs = do
  t ← tag_of_kind k
  parse_simple tn false (is_i64 (basic declared k tn)) t def i
do_parse_type (struct_type tn s) def i allow_ptrs = parse_simple tn true false (t_struct s) def i
do_parse_type (map_type tn kt vt) def i allow_ptrs =
    parse_map tn (λ j. do_parse_type kt def j true) (λ j. do_parse_type vt def j true) def i
do_parse_type (slice_type tn et) def i allow_ptrs =
    let elems = do_parse_slice (λ j. do_parse_type et def j true) def i in
    if is_byte et
    then parse_simple tn false false t_binary def i
    else if bytes_eq def []
    then err (syntax_error i)
    else elems
do_parse_type (array_type et) def i allow_ptrs = err type_error

unfoldable pub parse_type : GoType → Buf → Outcome DefType
parse_type vt def = do (t, _) ← do_parse_type vt def 0 true; ok t
