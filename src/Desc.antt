-- ===== src/Desc.antt =====
-- Struct descriptors: internal/reflect/desc.go. A descriptor is built from the fields that the
-- resolver of internal/defs/resolver.go returns, and is then only read. The Sd of a tType is the
-- descriptor that a table gives for the struct's number, so a struct may contain itself.
pub mod Lookup
pub mod Sizes
pub mod Accounts
pub mod Table
use frugal.Base.{ℕ, zero, suc, ◌+◌, ◌%◌, ◌^◌, Bool, true, false, ◌&&◌, ◌||◌, if◌then◌else◌}
use frugal.Base.{List, [], ◌∷◌, ◌++◌, Option, none, some, length, get_elem?, set, replicate}
use frugal.Base.{Outcome, ok, panic, ◌>>=◌, ◌>>◌, ltb, ◌==◌}
use frugal.Types.{DefType, TType, t_pointer, t_binary, map_t, string_t, tag, ttype_of, is_pointer}
use frugal.Types.{container_types, fixed_size, field_header_len, elem_type}
use mathlib.Core.Bool.{not}
use frugal.Value.{Val, ptr, nil}

pub data Requiredness : Type 0 where
  default_req required optional : Requiredness

abbrev pub is_optional : Requiredness → Bool
is_optional optional = true
is_optional _ = false

abbrev pub is_required : Requiredness → Bool
is_required required = true
is_required _ = false

-- defs.Field. `offset` is the field's place in the struct; `init` is the value that InitDefault
-- gave the field, `none` if the struct has no InitDefault.
pub record Field : Type 0 where
  pub offset : ℕ
  pub id : ℕ
  pub type : DefType
  pub nocopy : Bool
  pub spec : Requiredness
  pub init : Option Val

-- tField.
pub record TField : Type 0 where
  pub id : ℕ
  pub offset : ℕ
  pub type : DefType
  pub spec : Requiredness
  pub default_val : Option Val
  pub no_copy : Bool
  pub can_skip_encode_if_nil : Bool
  pub can_skip_if_default : Bool

-- structDesc. A `fieldIdx` of -1 is `none`.
pub record StructDesc : Type 0 where
  pub max_id : ℕ
  pub field_idx : List (Option ℕ)
  pub fields : List TField
  pub has_init_func : Bool
  pub has_unknown_fields : Bool
  pub fixed_len_field_size : ℕ
  pub var_len_fields : List ℕ
  pub required_field_ids : List ℕ

abbrev pub is_binary : DefType → Bool
is_binary t_binary = true
is_binary _ = false

abbrev pub is_string : TType → Bool
is_string string_t = true
is_string _ = false

abbrev is_map : TType → Bool
is_map map_t = true
is_map _ = false

-- `for v.Kind() == reflect.Ptr { v = v.Elem() }`; a nil pointer leaves no valid value.
unfoldable pub deref_default : DefType → Val → Option Val
deref_default (t_pointer t) (ptr w) = deref_default t w
deref_default (t_pointer t) w = none
deref_default _ w = some w

abbrev pub can_skip_nil : Field → Bool
can_skip_nil x =
    is_optional x.spec
    && (is_pointer x.type || is_binary x.type || container_types (ttype_of x.type))

unfoldable pub default_of : Field → Option Val
unfolding deref_default
default_of x = elim x.init [ none ↦ none | some v ↦ deref_default x.type v ]

abbrev pub is_set : Option Val → Bool
is_set none = false
is_set (some v) = true

-- fromDefsField, after the panics.
unfoldable pub tfield : Field → TField
unfolding default_of
tfield x = record {
  id = x.id;
  offset = x.offset;
  type = x.type;
  spec = x.spec;
  default_val = default_of x;
  no_copy = x.nocopy;
  can_skip_encode_if_nil = can_skip_nil x;
  can_skip_if_default = is_set (default_of x) && (is_optional x.spec && not (is_pointer x.type));
}

-- The panics of `newTType`, when it makes the tType: for a pointer to a map updateMapAppendFunc
-- reads the type of t.K, which is nil, and a pointer to a pointer is refused.
unfoldable pub new_ttype_panics : DefType → Bool
unfolding is_pointer tag
new_ttype_panics t = is_pointer t && (is_map (tag t) || is_pointer (elem_type t))

-- `nocopy` is for strings only.
unfoldable pub from_defs_field : Field → Outcome TField
unfolding new_ttype_panics
from_defs_field x =
    if new_ttype_panics x.type
    then panic
    else if x.nocopy && not (is_string (tag x.type))
    then panic
    else ok (tfield x)

-- (*tField).EncodedSize; `none` is -1.
unfoldable pub field_encoded_size : TField → Option ℕ
unfolding is_pointer fixed_size
field_encoded_size f =
    if is_pointer f.type
    then none
    else if is_optional f.spec
    then none
    else if ltb 0 (fixed_size f.type)
    then some (field_header_len + fixed_size f.type)
    else none

unfoldable pub max_field_id : ℕ → List Field → ℕ
max_field_id m [] = m
max_field_id m (f ∷ ff) = max_field_id (if ltb m f.id then f.id else m) ff

-- An assignment `idx[i] = v` and its range check.
unfoldable pub set_index {ℓ} : {A : Type ℓ} → List A → ℕ → A → Outcome (List A)
set_index xs i v = if ltb i (length xs) then ok (set xs i v) else panic

-- `for i, f := range ff { d.fields[i].fromDefsField(f); d.fieldIdx[f.ID] = i }`
unfoldable pub fill_fields :
    ℕ → List Field → List (Option ℕ) → Outcome (List TField × List (Option ℕ))
fill_fields i [] idx = ok ([], idx)
fill_fields i (x ∷ ff) idx = do
  f ← from_defs_field x
  idx' ← set_index idx f.id (some i)
  (fs, out) ← fill_fields (suc i) ff idx'
  ok (f ∷ fs, out)

-- The second loop: fixedLenFieldSize, varLenFields and requiredFieldIDs, `i` the index reached.
unfoldable pub fixed_sum : List TField → ℕ
fixed_sum [] = 0
fixed_sum (f ∷ fs) = (elim (field_encoded_size f) [ none ↦ 0 | some n ↦ n ]) + fixed_sum fs

unfoldable pub var_indices : ℕ → List TField → List ℕ
var_indices i [] = []
var_indices i (f ∷ fs) =
    let rest = var_indices (suc i) fs in
    elim (field_encoded_size f) [ none ↦ i ∷ rest | some n ↦ rest ]

unfoldable pub required_ids : List TField → List ℕ
required_ids [] = []
required_ids (f ∷ fs) =
    let rest = required_ids fs in if is_required f.spec then f.id ∷ rest else rest

-- newStructDesc over resolved fields: fromDefsFields, and what reflection says of the type.
-- `maxFieldID+1` is computed in uint16.
unfoldable pub from_defs_fields : Bool → Bool → List Field → Outcome StructDesc
from_defs_fields init_func unknown ff = do
  let max = max_field_id 0 ff
  (fs, idx) ← fill_fields 0 ff (replicate ((max + 1) % 2 ^ 16) none)
  ok (record {
    max_id = max;
    field_idx = idx;
    fields = fs;
    has_init_func = init_func;
    has_unknown_fields = unknown;
    fixed_len_field_size = fixed_sum fs;
    var_len_fields = var_indices 0 fs;
    required_field_ids = required_ids fs;
  })

-- GetField; an index out of range panics.
unfoldable pub get_field : StructDesc → ℕ → Outcome (Option TField)
get_field d fid = if ltb d.max_id fid then ok none else elim (get_elem? d.field_idx fid) [
  | none ↦ panic
  | some none ↦ ok none
  | some (some i) ↦ elim (get_elem? d.fields i) [ none ↦ panic | some f ↦ ok (some f) ]
]
