-- ===== src/Resolve.antt =====
-- The fields of a Go struct: DoResolveFields of internal/defs/resolver.go, on what reflect says of
-- the struct type.
pub mod Order
pub mod Ids
use frugal.Base.{
  ℕ, ◌+◌, ◌*◌, ◌-◌, ◌^◌, Bool, true, false, ◌&&◌, ◌||◌, List, [], ◌∷◌, Option, none, some, map,
  drop,
}
use frugal.Base.{Outcome, ok, err, ◌>>=◌, map_err, ltb, leb, ◌==◌, if◌then◌else◌}
use frugal.Base.{
  invalid_tag, invalid_field_number, duplicated_field_id, invalid_requiredness, type_descriptor_err,
  pointer_not_optional, invalid_option, nocopy_not_applicable, duplicated_option,
}
use mathlib.Core.Bool.{not}
use frugal.Wire.{Buf}
use frugal.Child.{bytes_eq}
use frugal.Types.{DefType, is_value_type, tag}
use frugal.Value.{Val}
use frugal.Desc.{Field, Requiredness, default_req, required, optional, is_optional, is_string}
use frugal.Parse.{GoType, parse_type}

-- reflect.StructField: `private` if PkgPath is not empty, and what Tag.Lookup finds of the two keys.
pub record StructField : Type 0 where
  pub anonymous : Bool
  pub private : Bool
  pub frugal_tag : Option Buf
  pub thrift_tag : Option Buf
  pub go_type : GoType
  pub offset : ℕ

-- strings.Split at commas.
abbrev add_to_first : ℕ → List Buf → List Buf
add_to_first c [] = (c ∷ []) ∷ []
add_to_first c (w ∷ ws) = (c ∷ w) ∷ ws

unfoldable pub split_commas : Buf → List Buf
split_commas [] = [] ∷ []
split_commas (c ∷ cs) = let ws = split_commas cs in if c == 44 then [] ∷ ws else add_to_first c ws

-- strings.TrimSpace, on ASCII.
abbrev is_ascii_space : ℕ → Bool
is_ascii_space c = (leb 9 c && leb c 13) || (c == 32)

unfoldable pub trim_left : Buf → Buf
trim_left [] = []
trim_left (c ∷ cs) = let s = trim_left cs in if is_ascii_space c then s else c ∷ cs

unfoldable pub trim_right : Buf → Buf
trim_right [] = []
trim_right (c ∷ cs) =
    let s = trim_right cs in if is_ascii_space c && bytes_eq s [] then [] else c ∷ s

unfoldable pub trim_spaces : List Buf → List Buf
trim_spaces ss = map (λ s. trim_right (trim_left s)) ss

unfoldable pub lookup_struct_tag : StructField → Option (List Buf)
lookup_struct_tag sf = elim sf.frugal_tag [
  | some s ↦ some (trim_spaces (split_commas s))
  | none ↦ elim sf.thrift_tag [
    | some s ↦ some (trim_spaces (drop 1 (split_commas s)))
    | none ↦ none
  ]
]

-- strconv.ParseUint(s, 10, 16).
unfoldable pub digits : Buf → ℕ → Option ℕ
digits [] n = some n
digits (c ∷ cs) n =
    let rest = digits cs (n * 10 + (c - 48)) in if leb 48 c && leb c 57 then rest else none

unfoldable pub parse_uint16 : Buf → Option ℕ
parse_uint16 [] = none
parse_uint16 (c ∷ cs) = elim (digits (c ∷ cs) 0) [
  | none ↦ none
  | some n ↦ if ltb n (2 ^ 16) then some n else none
]

-- `_, ok = ids[id]`.
unfoldable pub has_id : List ℕ → ℕ → Bool
has_id [] id = false
has_id (j ∷ ids) id = id == j || has_id ids id

-- The next word of a tag, or what stands for it.
abbrev next_word : Buf → List Buf → Buf × List Buf
next_word tv [] = (tv, [])
next_word tv (w ∷ ft) = (w, ft)

abbrev default_word : Buf
default_word = 100 ∷ 101 ∷ 102 ∷ 97 ∷ 117 ∷ 108 ∷ 116 ∷ []

unfoldable pub requiredness : Buf → Outcome Requiredness
requiredness tv =
    if bytes_eq tv default_word
    then ok default_req
    else if bytes_eq tv (114 ∷ 101 ∷ 113 ∷ 117 ∷ 105 ∷ 114 ∷ 101 ∷ 100 ∷ [])
    then ok required
    else if bytes_eq tv (111 ∷ 112 ∷ 116 ∷ 105 ∷ 111 ∷ 110 ∷ 97 ∷ 108 ∷ [])
    then ok optional
    else err invalid_requiredness

-- The options; the only one is nocopy, on a string or a binary, and once.
unfoldable pub scan_options : DefType → List Buf → Bool → Outcome Bool
scan_options t [] nocopy = ok nocopy
scan_options t (o ∷ ft) nocopy =
    let rest = scan_options t ft true in
    if not (bytes_eq o (110 ∷ 111 ∷ 99 ∷ 111 ∷ 112 ∷ 121 ∷ []))
    then err invalid_option
    else if not (is_string (tag t))
    then err nocopy_not_applicable
    else if nocopy
    then err duplicated_option
    else rest

-- The value that InitDefault gave a field, by its place, if the struct has InitDefault.
abbrev pub Defaults : Type 0
Defaults = Option (ℕ → Val)

abbrev default_at : Defaults → ℕ → Option Val
default_at none offset = none
default_at (some mem) offset = some (mem offset)

-- A field with an ID, from the words behind that: requiredness, type, options.
unfoldable pub described_field : Defaults → StructField → ℕ → List Buf → Outcome Field
described_field mem sf id ft = do
  rx ← requiredness (next_word default_word ft).0
  let ft₁ = (next_word default_word ft).1
  t ← map_err type_descriptor_err (parse_type sf.go_type (next_word [] ft₁).0)
  if not (is_optional rx) && not (is_value_type t) then err pointer_not_optional else do
    nocopy ← scan_options t (next_word [] ft₁).1 false
    ok (record {
      offset = sf.offset;
      id = id;
      type = t;
      nocopy = nocopy;
      spec = rx;
      init = default_at mem sf.offset;
    })

unfoldable pub tagged_field : Defaults → StructField → List Buf → List ℕ → Outcome Field
tagged_field mem sf [] ids = err invalid_tag
tagged_field mem sf (w ∷ ft) ids = elim (parse_uint16 w) [
  | none ↦ err invalid_field_number
  | some id ↦ if has_id ids id then err (duplicated_field_id id) else described_field mem sf id ft
]

-- One round of the loop over the fields: `none` for a field that is passed over.
unfoldable pub resolve_field : Defaults → StructField → List ℕ → Outcome (Option Field)
resolve_field mem sf ids =
    if sf.anonymous || sf.private then ok none else elim (lookup_struct_tag sf) [
      | none ↦ ok none
      | some ft ↦ do f ← tagged_field mem sf ft ids; ok (some f)
    ]

-- The loop, with the IDs that are taken.
unfoldable pub resolve_fields : Defaults → List StructField → List ℕ → Outcome (List Field)
resolve_fields mem [] ids = ok []
resolve_fields mem (sf ∷ sfs) ids = do
  f ← resolve_field mem sf ids
  elim f [
    | none ↦ resolve_fields mem sfs ids
    | some f ↦ do fs ← resolve_fields mem sfs (f.id ∷ ids); ok (f ∷ fs)
  ]

-- sort.Slice by ID; no two fields have one ID, so the sort need not be stable.
unfoldable pub insert_field : Field → List Field → List Field
insert_field f [] = f ∷ []
insert_field f (g ∷ gs) =
    let rest = insert_field f gs in if ltb g.id f.id then g ∷ rest else f ∷ g ∷ gs

unfoldable pub sort_fields : List Field → List Field
sort_fields [] = []
sort_fields (f ∷ fs) = insert_field f (sort_fields fs)

unfoldable pub do_resolve_fields : Defaults → List StructField → Outcome (List Field)
do_resolve_fields mem sfs = do fs ← resolve_fields mem sfs []; ok (sort_fields fs)
