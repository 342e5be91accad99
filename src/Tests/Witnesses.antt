-- ===== src/Tests/Witnesses.antt =====
-- The theorems of the encoder, applied to sample values.
use frugal.Base.{
  ℕ, Bool, true, false, [], ◌∷◌, none, some, ok, panic, fault, ◌≡◌, refl, inl, inr, arith,
}
use frugal.Base.{map}
use frugal.Wire.{Buf, append_uint32, append_uint64, read_uint32, read_uint64}
use frugal.Types
use frugal.Types.{
  t_binary, i32_t, string_t, elem_type, t_i32, t_i64, t_pointer, t_bool, t_list, ttype_of,
  is_key_type, is_value_type,
}
use frugal.Value.{num, str}
use frugal.Child.{Child, is_nil}
use frugal.Codec.{child}
use frugal.Desc
use frugal.Desc.{Field, StructDesc, from_defs_fields, tfield, get_field, default_req}
use frugal.Desc.Accounts.{Accounts, from_defs_fields-Accounts}
use frugal.Desc.Lookup.{last_with, get_field-last_with, from_defs_fields-max_id}
use frugal.Child
use frugal.Codec
use frugal.Encode
use frugal.Encode.MapLoop
use frugal.Encode.MapFast
use frugal.Wire
use frugal.Encode.{append_list_any, list_append_func}
use frugal.Encode.MapLoop.{append_map_any_any}
use frugal.Encode.MapFast.{map_append_func}
use frugal.Spec.Typed.{HoldsFields, holds, is_read_whole}
use frugal.Correct.FastPaths.{
  list_append_func-eq-append_list_any, map_append_func-eq-append_map_any_any,
}
use frugal.Tests.{node, node_fields, node-built, all_nodes, inner_vals, outer_vals}

inner-Holds : (by_value : Bool) → HoldsFields node.fields (holds all_nodes by_value inner_vals)
unfolding node from_defs_fields Desc.fill_fields Desc.from_defs_field Desc.new_ttype_panics
    Desc.set_index tfield Desc.max_field_id is_value_type is_key_type is_read_whole ttype_of
    Desc.default_of elem_type
inner-Holds by_value = (
  tt,
  inr (omega arith),
  (
    tt,
    inr (tt, omega arith, (omega arith, tt)),
    (tt, inl refl, (tt, inr refl, (tt, inr (refl, refl), tt))),
  ),
)

pub outer-Holds : (by_value : Bool) → HoldsFields node.fields (holds all_nodes by_value outer_vals)
unfolding node from_defs_fields Desc.fill_fields Desc.from_defs_field Desc.new_ttype_panics
    Desc.set_index tfield Desc.max_field_id is_value_type is_key_type is_read_whole ttype_of
    Desc.default_of elem_type
outer-Holds by_value = (
  tt,
  inr (omega arith),
  (
    tt,
    inr (tt, omega arith, (omega arith, (omega arith, tt))),
    (
      tt,
      inr (inner-Holds by_value),
      (
        tt,
        inr (refl, omega arith, (omega arith, (omega arith, tt))),
        (
          tt,
          inr (
            refl,
            refl,
            refl,
            omega arith,
            refl,
            (omega arith, omega arith, (omega arith, omega arith, tt)),
          ),
          tt,
        ),
      ),
    ),
  ),
)

-- The bytes of the inner node, written out.
abbrev inner_bytes : Buf
inner_bytes =
    8 ∷ 0 ∷ 1 ∷ 0 ∷ 0 ∷ 0 ∷ 7 ∷ 15 ∷ 0 ∷ 5 ∷ 10 ∷ 0 ∷ 0 ∷ 0 ∷ 0 ∷ 13 ∷ 0 ∷ 4 ∷ 8 ∷ 2 ∷ 0 ∷ 0 ∷ 0 ∷ 0
    ∷ 0 ∷ []

list_append_func-eq-append_list_any_example :
    list_append_func (ttype_of t_i64) t_i64 (9 ∷ []) (some (child all_nodes (num 5) ∷ []))
    ≡ append_list_any t_i64 (9 ∷ []) (some (child all_nodes (num 5) ∷ []))
unfolding is_value_type
list_append_func-eq-append_list_any_example =
    list_append_func-eq-append_list_any t_i64 (9 ∷ []) (some (child all_nodes (num 5) ∷ [])) refl

-- A map of one entry whose header counts two, as after a deletion during the iteration.
abbrev changed_map : MapLoop.GoMap
changed_map = some (2, (child all_nodes (num 5), child all_nodes (num 1)) ∷ [])

map_append_func-eq-append_map_any_any_example :
    map_append_func (ttype_of t_i32) (ttype_of t_bool) t_i32 t_bool [] changed_map
    ≡ append_map_any_any t_i32 t_bool [] changed_map
unfolding is_key_type is_value_type is_read_whole MapLoop.map_entries child
map_append_func-eq-append_map_any_any_example =
    map_append_func-eq-append_map_any_any t_i32 t_bool refl refl refl [] changed_map
      (tt, omega arith, tt)

-- A map[int32][]byte with an entry.
abbrev binary_map : MapLoop.GoMap
binary_map = some (1, (child all_nodes (num 5), child all_nodes (str (97 ∷ []))) ∷ [])

binary_map_misread : map_append_func i32_t string_t t_i32 t_binary [] binary_map ≡ fault
unfolding map_append_func MapFast.map_kind_func MapFast.kind MapFast.ranged_value MapFast.misread
    MapLoop.append_map MapLoop.map_len MapLoop.map_entries MapLoop.append_map_header
    MapLoop.map_loop Encode.put_uint32 append_uint32 Types.wire_type Types.tag Types.ttype_code
    child
binary_map_misread = refl

from_defs_fields-Accounts_example : Accounts node
from_defs_fields-Accounts_example = from_defs_fields-Accounts true true node_fields node-built

get_field-last_with_example :
    (node.fields ≡ map tfield node_fields)
    × ((fid : ℕ) → get_field node fid ≡ ok (last_with fid node.fields none))
unfolding Desc.max_field_id
get_field-last_with_example = get_field-last_with true true node_fields (omega arith) node-built

from_defs_fields-max_id_example :
    from_defs_fields false false (
      record {
        offset = 0;
        id = 65535;
        type = t_i32;
        nocopy = false;
        spec = default_req;
        init = none;
      }
      ∷ [])
    ≡ panic
unfolding Desc.max_field_id
from_defs_fields-max_id_example =
    from_defs_fields-max_id false false
      (record {
        offset = 0;
        id = 65535;
        type = t_i32;
        nocopy = false;
        spec = default_req;
        init = none;
      }
        ∷ [])
      refl
