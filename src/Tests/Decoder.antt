-- ===== src/Tests/Decoder.antt =====
-- A runtime for the sample descriptors, and the theorems of Decode applied to them.
use frugal.Base.{
  ℕ, ◌<◌, ◌≤◌, ◌≡◌, ◌≢◌, refl, arith, ltb, if◌then◌else◌, inl, inr, true, All, [], ◌∷◌, length,
  replicate, length-replicate, none,
}
use frugal.Base.{Outcome, ok, err, stuck, short_buffer, map}
use frugal.Wire.{Buf, read_byte, read_uint16, read_uint32}
use frugal.Value.{Vals, num, str, nil, slice, go_map, struct, ptr, end, item, no_entries, entry}
use frugal.Desc.{
  tfield, from_defs_fields, fill_fields, from_defs_field, new_ttype_panics, set_index, max_field_id,
  required_ids, default_of, deref_default,
}
use frugal.Base.{le→not_ltb, Bool-cases, not_ltb→le}
use frugal.Types.{is_pointer, fixed_size, type_to_size, wire_type, ttype_code}
use frugal.Types.{elem_type, container_types, is_enum, tag, key_type, ttype_of}
use frugal.Spec.{is_omitted, is_default, same_value}
use frugal.Encode.{skip_default, equal_default}
use frugal.Codec.{struct_of}
use frugal.Decode.Checked.{Misses, decode_body-Tells}
use frugal.Desc.Table.{IsTable, Distinct, from_defs_fields-IsTable}
use frugal.Bitset
use frugal.Bitset.{empty}
use frugal.Bitset.Laws.{empty-IsBitset}
use frugal.Desc.{get_field}
use frugal.Spec.{big_endian}
use frugal.Decode.Unknown.{Piece, unknown_form, HasUnknowns, kept_unknowns}
use frugal.Decode.Runtime.{Runtime, decode_at, slice_from}
use frugal.Decode.Walk.{decode_type, decode_object, decode_struct, init_struct}
use frugal.Decode.{decode_fixed_size_types}
use frugal.Decode.Fields.{
  decode_round, decode_field, known_field, decode_known, val_at, has_required,
}
use frugal.Decode.Fields.{set_val, decode_body, decode_fields, after_type, finish}
use frugal.Decode.Required.{unset_all, first_unset}
use frugal.Child.{equal, bytes_eq, f64_eq}
use frugal.Decode.Result.{read_back, patch, patch_field, fill, decoded_nil, places}
use frugal.Decode.Bounds.Fields.{IsSkip}
use frugal.Decode.Bounds.Walk.{decode_object-ne-stuck, decode_object-le}
use frugal.Decode.RoundTrip.Shapes.{IsRuntime}
use frugal.Tests.{node_fields, node, node-built, all_nodes, box, all_boxes, outer_vals}

-- The fields of a node that InitDefault was called on.
abbrev pub new_vals : Vals
new_vals = item (num 0) (item (str (97 ∷ [])) (item nil (item nil (item nil end))))

-- Skip takes four bytes, or fails.
unfoldable pub skip_four : ℕ → Buf → Outcome ℕ
skip_four tp b = if ltb (length b) 4 then err short_buffer else ok 4

abbrev pub node_runtime : Runtime
node_runtime = record {
  fresh = λ t. nil;
  init_default = λ s v. struct new_vals [];
  skip = skip_four;
  bitset = λ d b. empty;
  unknowns = λ d b. record { sz = 3; offs = record { off = 1; sz = 3 } ∷ [] };
  unknown_mem = λ n. replicate n 0;
  tmp_vars = λ t. (num 5, num 1);
}

node-Distinct : Distinct (map tfield node_fields)
unfolding tfield
node-Distinct = (
  (omega arith, (omega arith, (omega arith, (omega arith, tt)))),
  (
    (omega arith, (omega arith, (omega arith, tt))),
    ((omega arith, (omega arith, tt)), ((omega arith, tt), (tt, tt))),
  ),
)

pub node-IsTable : (s : ℕ) → IsTable (all_nodes s)
unfolding max_field_id
node-IsTable s =
    from_defs_fields-IsTable true true node_fields (omega arith) node-Distinct node-built

pub inside : All (λ f. f.offset < 5) node.fields
unfolding node from_defs_fields fill_fields from_defs_field new_ttype_panics set_index tfield
    max_field_id elem_type
inside = (omega arith, (omega arith, (omega arith, (omega arith, (omega arith, tt)))))

pub node_runtime-IsRuntime : IsRuntime node_runtime all_nodes
unfolding init_struct node from_defs_fields fill_fields from_defs_field new_ttype_panics set_index
    tfield max_field_id elem_type
node_runtime-IsRuntime = record {
  laid = λ s. record { ws = new_vals; yb = []; shape = refl; inside = inside };
  pool = λ d b. empty-IsBitset;
  mem = λ n. length-replicate n 0;
}

skip_four-IsSkip : IsSkip skip_four
unfolding skip_four
skip_four-IsSkip tp b = elim (Bool-cases (ltb (length b) 4)) [
  | inl e ↦ rw e tt
  | inr e ↦ rw e (not_ltb→le (length b) 4 e)
]

decode_object-ne-stuck_example :
    decode_object node_runtime all_nodes 0 (8 ∷ 0 ∷ []) (struct new_vals []) ≢ stuck
decode_object-ne-stuck_example =
    decode_object-ne-stuck node_runtime skip_four-IsSkip all_nodes 0 (8 ∷ 0 ∷ [])
      (struct new_vals [])

-- A lone stop byte and one more.
stop_decoded :
    decode_object node_runtime all_boxes 0 (0 ∷ 9 ∷ []) (struct (item nil end) [])
    ≡ ok (struct (item nil end) [], 1)
unfolding decode_object decode_struct decode_body unset_all box from_defs_fields fill_fields
    from_defs_field new_ttype_panics set_index tfield max_field_id required_ids decode_fields
    read_byte after_type finish first_unset
stop_decoded = refl

decode_object-le_example : 1 ≤ 2
decode_object-le_example =
    decode_object-le node_runtime skip_four-IsSkip all_boxes 0 1 (0 ∷ 9 ∷ [])
      (struct (item nil end) []) (struct (item nil end) []) stop_decoded

-- The nil list and map of the inner node have come back empty.
outer_decoded :
    patch node.fields (places node_runtime all_nodes outer_vals) new_vals
    ≡ item (num 258) (
        item (str (98 ∷ 99 ∷ [])) (
          item
            (ptr (
              struct
                (item (num 7) (
                  item
                    (str (97 ∷ []))
                    (item nil (item (slice end) (item (go_map 0 no_entries) end)))))
                []))
            (item
              (slice (item (num 1) (item (num 2) end)))
              (item (go_map 2 (entry (num 1) (num 1) (entry (num 2) (num 0) no_entries))) end))))
unfolding kept_unknowns patch node from_defs_fields fill_fields from_defs_field new_ttype_panics
    set_index tfield max_field_id elem_type patch_field places is_omitted same_value is_default
    set_val container_types ttype_of bytes_eq read_back struct_of fill key_type equal f64_eq
    decoded_nil init_struct default_of deref_default equal_default skip_default is_enum tag
outer_decoded = refl

-- An unknown field: an i32 of the ID 9.
abbrev pub unknown_piece : Piece
unknown_piece = record { tp = 8; fid = 9; body = 1 ∷ 2 ∷ 3 ∷ 4 ∷ [] }

abbrev pub unknown_bytes : Buf
unknown_bytes = 8 ∷ 0 ∷ 9 ∷ 1 ∷ 2 ∷ 3 ∷ 4 ∷ []

pub node-HasUnknowns : HasUnknowns node_runtime node unknown_bytes
unfolding unknown_form big_endian
node-HasUnknowns = (
  unknown_piece ∷ [],
  refl,
  (
    record {
      kept =
          unfold node from_defs_fields fill_fields from_defs_field new_ttype_panics set_index tfield
            max_field_id elem_type in
          refl;
      type = omega arith;
      id = omega arith;
      known = none;
      found =
          unfold get_field node from_defs_fields fill_fields from_defs_field new_ttype_panics
            set_index tfield max_field_id elem_type in
          refl;
      other = tt;
      skipped = λ rest.
          unfold skip_four in rw (le→not_ltb 4 (length (1 ∷ 2 ∷ 3 ∷ 4 ∷ rest)) (omega arith));
    },
    tt,
  ),
)

from_defs_fields-IsTable_example : IsTable node
unfolding max_field_id
from_defs_fields-IsTable_example =
    from_defs_fields-IsTable true true node_fields (omega arith) node-Distinct node-built

-- The field 1 and the stop byte; the required field 4 is not there.
abbrev one_field : Buf
one_field = 8 ∷ 0 ∷ 1 ∷ 0 ∷ 0 ∷ 0 ∷ 7 ∷ 0 ∷ []

decode_body-Tells_example :
    Misses node_runtime (decode_type node_runtime all_nodes 3) node one_field 4
unfolding decode_body unset_all node from_defs_fields fill_fields from_defs_field new_ttype_panics
    set_index tfield max_field_id required_ids decode_fields read_byte after_type finish first_unset
    decode_round decode_field known_field decode_known decode_at val_at set_val has_required
    get_field decode_fixed_size_types read_uint16 read_uint32 is_pointer fixed_size type_to_size
    ttype_of is_enum tag wire_type ttype_code slice_from elem_type Bitset.unset Bitset.word
    Bitset.put_word Bitset.set Bitset.test
decode_body-Tells_example =
    decode_body-Tells node_runtime (decode_type node_runtime all_nodes 3) node (node-IsTable 0)
      (omega arith, tt) 5 one_field [] new_vals refl empty-IsBitset
