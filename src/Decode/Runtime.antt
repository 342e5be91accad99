-- ===== src/Decode/Runtime.antt =====
-- What tDecoder of internal/reflect/decoder.go takes from outside: fresh memory, the InitDefault
-- methods of the decoded types, thrift.Binary.Skip, and what its pools give. And the places that a
-- value is decoded into: mallocIfPointer, and the fixed-size case that comes before decodeType.
use frugal.Base.{ℕ, drop, length, Outcome, ok, panic, ◌>>=◌, ltb, leb, if◌then◌else◌}
use frugal.Wire.{Buf}
use frugal.Types.{DefType, ttype_of, fixed_size, is_pointer, elem_type}
use frugal.Value.{Val, ptr}
use frugal.Bitset.{Bitset}
use frugal.UnknownFields.{UnknownFields}
use frugal.Decode.{Read, decode_fixed_size_types}

-- `fresh` is the memory of a new variable of a type, `init_default` what InitDefault of a struct
-- makes of it, `skip` thrift.Binary.Skip at a wire type, `bitset` a bitset of the pool as it was put
-- back, `unknowns` the same of unknownFields, `unknown_mem` uncleared memory of a size, and `tmp_vars` the key and the value that a map
-- type's pool of temporary variables gives.
pub record Runtime : Type 0 where
  pub fresh : DefType → Val
  pub init_default : ℕ → Val → Val
  pub skip : ℕ → Buf → Outcome ℕ
  pub bitset : ℕ → Buf → Bitset
  pub unknowns : ℕ → Buf → UnknownFields
  pub unknown_mem : ℕ → Buf
  pub tmp_vars : DefType → Val × Val

-- decodeType at a depth: of a type, on the rest of the buffer, into a variable that holds a value.
abbrev pub Decoder : Type 0
Decoder = DefType → Buf → Val → Read

-- `b[n:]`
unfoldable pub slice_from : Buf → ℕ → Outcome Buf
slice_from b n = if leb n (length b) then ok (drop n b) else panic

-- `if t.FixedSize > 0 { decodeFixedSizeTypes } else { decodeType }`
unfoldable pub decode_elem : Decoder → Decoder
decode_elem dec t b old =
    if ltb 0 (fixed_size t) then decode_fixed_size_types (ttype_of t) b else dec t b old

-- A pointer is given a fresh variable, and the value is decoded into that.
unfoldable pub decode_at : Runtime → Decoder → Decoder
decode_at rt dec t b old =
    if is_pointer t
    then (do (w, n) ← dec t b (rt.fresh (elem_type t)); ok (ptr w, n))
    else dec t b old
