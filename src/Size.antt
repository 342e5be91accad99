-- ===== src/Size.antt =====
-- Measuring a value: EncodedSize, encodedMapSize and encodedListSize of internal/reflect/ttype.go.
use frugal.Base.{ℕ, ◌+◌, ◌*◌, Bool, ◌&&◌, List, [], ◌∷◌, none, some}
use frugal.Base.{length, get_elem?, Outcome, ok, panic, fault, ◌>>=◌, ltb, ◌==◌, if◌then◌else◌}
use frugal.Types.{DefType, string_t, struct_t, ttype_of, is_pointer, fixed_size}
use frugal.Types.{field_header_len, map_header_len, list_header_len, str_header_len}
use frugal.Value.{Val}
use frugal.Child.{Child, as_str, load, is_nil, at_child}
use frugal.Desc.{TField, StructDesc, is_string}
use frugal.Encode.{Base, null, at, Slice, skip_default}
use frugal.Encode.MapLoop.{GoMap}

unfoldable pub encoded_string_size : Val → Outcome ℕ
encoded_string_size v = do s ← as_str v; ok (str_header_len + length s)

-- The part of the loop of EncodedSize behind the skips: the field's header and its value.
unfoldable pub field_size : TField → Child → Outcome ℕ
field_size f c = if ltb 0 (fixed_size f.type) then ok (field_header_len + fixed_size f.type) else do
  n ←
      if is_string (ttype_of f.type)
      then (do v ← (if is_pointer f.type then load c.val else ok c.val); encoded_string_size v)
      else c.size_func f.type
  ok (field_header_len + n)

-- One round of the loop of EncodedSize, on the field's child.
unfoldable pub size_field_at : TField → Child → Outcome ℕ
size_field_at f c =
    if f.can_skip_encode_if_nil && is_nil c.val
    then ok 0
    else do skip ← skip_default f c.val; if skip then ok 0 else field_size f c

unfoldable pub size_field : List Child → TField → Outcome ℕ
size_field cs f = at_child (get_elem? cs f.offset) (size_field_at f)

-- `for _, i := range sd.varLenFields`
unfoldable pub size_fields : List TField → List Child → List ℕ → ℕ → Outcome ℕ
size_fields fs cs [] ret = ok ret
size_fields fs cs (i ∷ is) ret = do
  n ← elim (get_elem? fs i) [ none ↦ panic | some f ↦ size_field cs f ]
  size_fields fs cs is (ret + n)

-- EncodedSize, on the base pointer.
unfoldable pub encoded_size : StructDesc → Base → Outcome ℕ
encoded_size sd null = ok 1
encoded_size sd (at cs xb) = do
  ret ← size_fields sd.fields cs sd.var_len_fields sd.fixed_len_field_size
  ok ((if sd.has_unknown_fields then ret + length xb else ret) + 1)

-- The size of an element or of a map's value: a string, or by EncodedSizeFunc.
unfoldable pub elem_size : DefType → Child → Outcome ℕ
elem_size t c = if is_string (ttype_of t) then encoded_string_size c.val else c.size_func t

-- The size of a map's key: a string, or by EncodedSize, which is for structs alone.
unfoldable pub key_size : DefType → Child → Outcome ℕ
key_size t c = elim (ttype_of t) [
  | string_t ↦ encoded_string_size c.val
  | struct_t ↦ c.size_func t
  | _ ↦ fault
]

unfoldable pub size_entries : Bool → Bool → DefType → DefType → List (Child × Child) → ℕ → Outcome ℕ
size_entries done_k done_v kt vt [] ret = ok ret
size_entries done_k done_v kt vt ((k, v) ∷ es) ret = do
  n ← if done_k then ok 0 else key_size kt k
  m ← if done_v then ok 0 else elem_size vt v
  size_entries done_k done_v kt vt es (ret + n + m)

unfoldable pub encoded_map_size : DefType → DefType → GoMap → Outcome ℕ
encoded_map_size kt vt none = ok map_header_len
encoded_map_size kt vt (some (l, es)) =
    let done_k = ltb 0 (fixed_size kt) in
    let done_v = ltb 0 (fixed_size vt) in
    let ret = map_header_len + l * fixed_size kt + l * fixed_size vt in
    if l == 0
    then ok map_header_len
    else if done_k && done_v
    then ok ret
    else size_entries done_k done_v kt vt es ret

unfoldable pub size_elems : DefType → List Child → ℕ → Outcome ℕ
size_elems t [] ret = ok ret
size_elems t (c ∷ cs) ret = do n ← elem_size t c; size_elems t cs (ret + n)

unfoldable pub encoded_list_size : DefType → Slice → Outcome ℕ
encoded_list_size t none = ok list_header_len
encoded_list_size t (some cs) =
    if ltb 0 (fixed_size t)
    then ok (list_header_len + length cs * fixed_size t)
    else size_elems t cs list_header_len
