-- ===== src/Tests/Decoding.antt =====
-- The theorems of the decoder and of the map loop, applied to sample values.
use frugal.Base.{
  ◌+◌, ◌-◌, ◌%◌, ◌^◌, ◌≤◌, ◌≡◌, ◌⊎◌, inr, refl, arith, [], ◌∷◌, ◌++◌, some, take, ok, ◌>>=◌,
}
use frugal.Wire.{append_uint32}
use frugal.Types.{t_enum, t_i32, t_bool, string_t, ttype_of, fixed_size}
use frugal.Types
use frugal.Value.{num, str}
use frugal.Codec.{child}
use frugal.Encode
use frugal.Encode.{append_simple}
use frugal.Encode.MapLoop
use frugal.Decode.{decode_fixed_size_types, decode_string}
use frugal.Decode.Scalars.{
  decode_fixed_size_types-append_simple, decode_string-append_simple, decode_string-Settles,
  Settles,
}
use frugal.Correct.MapCount.{append_map_any_any-counts}
use frugal.Tests.{all_nodes}

-- An enum of value -1.
decode_fixed_size_types-append_simple_example :
    (append_simple (ttype_of t_enum) [] (num (2 ^ 64 - 1)) >>= λ out.
    decode_fixed_size_types (ttype_of t_enum) (out ++ (7 ∷ [])))
    ≡ ok (num (2 ^ 64 - 1), fixed_size t_enum)
decode_fixed_size_types-append_simple_example =
    decode_fixed_size_types-append_simple t_enum (2 ^ 64 - 1) (7 ∷ []) (omega arith)
      (inr (omega arith, omega arith))

decode_string-append_simple_example :
    (append_simple string_t [] (str (97 ∷ 98 ∷ [])) >>= λ out. decode_string (out ++ (7 ∷ [])))
    ≡ ok (str (97 ∷ 98 ∷ []), 4 + 2)
decode_string-append_simple_example =
    decode_string-append_simple (97 ∷ 98 ∷ []) (7 ∷ []) (omega arith)

decode_string-Settles_example :
    Settles
      (λ (v, n). (4 ≤ n) × (n ≤ 5) × (v ≡ str (take (n - 4) (97 ∷ []))))
      (decode_string (0 ∷ 0 ∷ 0 ∷ 9 ∷ 97 ∷ []))
decode_string-Settles_example = decode_string-Settles (0 ∷ 0 ∷ 0 ∷ 9 ∷ 97 ∷ [])

abbrev one_entry : MapLoop.GoMap
one_entry = some (1, (child all_nodes (num 5), child all_nodes (num 1)) ∷ [])

one_entry_bytes :
    MapLoop.append_map_any_any t_i32 t_bool [] one_entry
    ≡ ok (8 ∷ 2 ∷ 0 ∷ 0 ∷ 0 ∷ 1 ∷ 0 ∷ 0 ∷ 0 ∷ 5 ∷ 1 ∷ [])
unfolding MapLoop.append_map_any_any MapLoop.append_map MapLoop.map_len MapLoop.map_entries
    MapLoop.append_map_header MapLoop.map_loop MapLoop.check_map_n Encode.append_any append_simple
    Encode.put_uint32 Encode.put_byte append_uint32 Types.wire_type Types.tag Types.ttype_code
    Types.is_enum Types.is_pointer Types.simple_type Types.simple_types ttype_of child
one_entry_bytes = refl

append_map_any_any-counts_example : (1 % 2 ^ 32 ≡ 0) ⊎ (1 % 2 ^ 32 ≡ 1 % 2 ^ 32)
append_map_any_any-counts_example =
    append_map_any_any-counts t_i32 t_bool [] (8 ∷ 2 ∷ 0 ∷ 0 ∷ 0 ∷ 1 ∷ 0 ∷ 0 ∷ 0 ∷ 5 ∷ 1 ∷ []) 1
      ((child all_nodes (num 5), child all_nodes (num 1)) ∷ []) one_entry_bytes
