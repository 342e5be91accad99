-- ===== src/Tests.antt =====
-- Sample descriptors and values, and the theorems applied to them.
pub mod Witnesses
pub mod Tables
pub mod Decoding
pub mod Decoder
pub mod Parsing
pub mod Runs
pub mod Same
pub mod Resolving
pub mod Prefetching
pub mod Creating
pub mod Uniques
use frugal.Base.{
  ℕ, Bool, true, false, List, [], ◌∷◌, Option, none, some, Outcome, ok, ◌≡◌, refl, length,
}
use frugal.Wire.{Buf}
use frugal.Types.{
  DefType, t_i32, t_i64, t_string, t_struct, t_map, t_list, t_pointer, t_bool, elem_type,
}
use frugal.Value.{
  Val, Vals, num, str, nil, slice, go_map, struct, ptr, end, item, no_entries, entry,
}
use frugal.Desc.{
  Field, StructDesc, default_req, required, optional, from_defs_fields, fill_fields,
  from_defs_field, new_ttype_panics, set_index, tfield, max_field_id,
}
use frugal.Desc.Sizes.{IsDesc, from_defs_fields-IsDesc}

-- struct Node { 1: i32; 2: optional string = "a"; 3: optional Node; 5: list<i64>;
-- 4: required map<i32, bool> }, with _unknownFields.
abbrev pub node_fields : List Field
node_fields =
    record { offset = 0; id = 1; type = t_i32; nocopy = false; spec = default_req; init = none }
    ∷ record {
      offset = 1;
      id = 2;
      type = t_string;
      nocopy = true;
      spec = optional;
      init = some (str (97 ∷ []));
    }
    ∷ record {
      offset = 2;
      id = 3;
      type = t_pointer (t_struct 0);
      nocopy = false;
      spec = optional;
      init = none;
    }
    ∷ record {
      offset = 3;
      id = 5;
      type = t_list t_i64;
      nocopy = false;
      spec = default_req;
      init = none;
    }
    ∷ record {
      offset = 4;
      id = 4;
      type = t_map t_i32 t_bool;
      nocopy = false;
      spec = required;
      init = none;
    }
    ∷ []

abbrev pub no_desc : StructDesc
no_desc = record {
  max_id = 0;
  field_idx = [];
  fields = [];
  has_init_func = false;
  has_unknown_fields = false;
  fixed_len_field_size = 0;
  var_len_fields = [];
  required_field_ids = [];
}

abbrev pub built : Outcome StructDesc → StructDesc
built (ok d) = d
built _ = no_desc

unfoldable pub node : StructDesc
node = built (from_defs_fields true true node_fields)

abbrev pub all_nodes : ℕ → StructDesc
all_nodes s = node

pub node-built : from_defs_fields true true node_fields ≡ ok node
unfolding node from_defs_fields fill_fields from_defs_field new_ttype_panics set_index tfield
    max_field_id elem_type
node-built = refl

pub node-IsDesc : (s : ℕ) → IsDesc (all_nodes s)
node-IsDesc s = from_defs_fields-IsDesc true true node_fields node-built

-- An inner node that leaves out both optional fields, and an outer node that has it.
abbrev pub inner_vals : Vals
inner_vals = item (num 7) (item (str (97 ∷ [])) (item nil (item nil (item nil end))))

abbrev pub outer_vals : Vals
outer_vals = item (num 258) (
    item (str (98 ∷ 99 ∷ [])) (
      item (ptr (struct inner_vals [])) (
        item (slice (item (num 1) (item (num 2) end)))
          (item (go_map 2 (entry (num 1) (num 1) (entry (num 2) (num 0) no_entries))) end))))

-- struct Box { 1: Box }, the inner one held by value.
abbrev pub box_fields : List Field
box_fields =
    record {
      offset = 0;
      id = 1;
      type = t_struct 0;
      nocopy = false;
      spec = default_req;
      init = none;
    }
    ∷ []

unfoldable pub box : StructDesc
box = built (from_defs_fields false false box_fields)

abbrev pub all_boxes : ℕ → StructDesc
all_boxes s = box
