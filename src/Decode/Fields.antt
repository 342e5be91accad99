-- ===== src/Decode/Fields.antt =====
-- The body of (*tDecoder).Decode of internal/reflect/decoder.go: the loop over the fields of a
-- struct, the check of required fields, and the copy of the unknown fields. `dec` is decodeType at
-- the depth below.
use frugal.Base.{ℕ, zero, suc, ◌+◌, ◌-◌, Bool, true, false, ◌&&◌, [], ◌∷◌, Option, none, some}
use frugal.Base.{drop, length, ltb, ◌==◌, if◌then◌else◌, Outcome, ok, err, panic, fault, stuck}
use frugal.Base.{◌>>=◌, map_err, field_err, skip_field_err, required_field_not_set}
use frugal.Wire.{Buf, read_byte, read_uint16}
use frugal.Types.{wire_type, fixed_size, ttype_of, field_header_len}
use frugal.Value.{Val, Vals, struct, end, item}
use frugal.Desc.{TField, StructDesc, get_field}
use frugal.Bitset.{Bitset, set}
use frugal.UnknownFields.{UnknownFields, add, copy, size, reset}
use frugal.Decode.{Read, decode_fixed_size_types, decode_string}
use frugal.Decode.Required.{unset_all, first_unset}
use frugal.Decode.Runtime.{Runtime, Decoder, slice_from, decode_at}

unfoldable pub val_at : Vals → ℕ → Option Val
val_at end i = none
val_at (item v vs) zero = some v
val_at (item v vs) (suc i) = val_at vs i

unfoldable pub set_val : Vals → ℕ → Val → Vals
set_val end i w = end
set_val (item v vs) zero w = item w vs
set_val (item v vs) (suc i) w = item v (set_val vs i w)

-- What the loop changes: the struct's fields, the bitset, the places of unknown fields, and i.
pub record State : Type 0 where
  pub vs : Vals
  pub bs : Bitset
  pub ufs : UnknownFields
  pub i : ℕ

-- `f == nil || f.Type.WT != tp`, the other way round.
unfoldable pub known_field : Option TField → ℕ → Option TField
known_field none tp = none
known_field (some f) tp = if wire_type f.type == tp then some f else none

unfoldable pub decode_known : Decoder → TField → Decoder
decode_known dec f t b old =
    if ltb 0 (fixed_size t)
    then decode_fixed_size_types (ttype_of t) b
    else if f.no_copy
    then decode_string b
    else dec t b old

-- An unknown field: its place, from its header on, is noted.
unfoldable pub skip_field : Runtime → StructDesc → ℕ → ℕ → Buf → State → Outcome (ℕ × State)
skip_field rt sd tp fid b st = do
  n ← map_err (skip_field_err fid) (rt.skip tp b)
  let i = st.i + 1 + 2
  ok (
    n,
    record st {
      ufs =
          if sd.has_unknown_fields
          then add (i - field_header_len) (n + field_header_len) st.ufs
          else st.ufs;
      i = i + n;
    },
  )

unfoldable pub has_required : StructDesc → Bool
has_required sd = elim sd.required_field_ids [ [] ↦ false | _ ∷ _ ↦ true ]

unfoldable pub decode_field :
    Runtime → Decoder → StructDesc → TField → ℕ → Buf → State → Outcome (ℕ × State)
decode_field rt dec sd f fid b st = elim (val_at st.vs f.offset) [
  | none ↦ fault
  | some old ↦ do
    (v, n) ← map_err (field_err fid) (decode_at rt (decode_known dec f) f.type b old)
    bs ← if has_required sd then set f.id st.bs else ok st.bs
    ok (n, record st { vs = set_val st.vs f.offset v; bs = bs; i = st.i + 1 + 2 + n })
]

-- One round behind the field's header, at `b[i:]`: how many bytes it took.
unfoldable pub decode_round :
    Runtime → Decoder → StructDesc → ℕ → ℕ → Buf → State → Outcome (ℕ × State)
decode_round rt dec sd tp fid b st = do
  f ← get_field sd fid
  elim (known_field f tp) [
    | none ↦ skip_field rt sd tp fid b st
    | some f ↦ decode_field rt dec sd f fid b st
  ]

-- A round behind the type byte, `b` being `b[i:]` there: the loop ends at a tSTOP, and else a field
-- is decoded and `loop` goes on.
unfoldable pub after_type :
    Runtime → Decoder → StructDesc → (Buf → State → Outcome State) → ℕ → Buf → State → Outcome State
after_type rt dec sd loop tp b st = elim (tp == 0) [
  | true ↦ ok (record st { i = st.i + 1 })
  | false ↦ do
    fid ← read_uint16 b
    (n, st') ← decode_round rt dec sd tp fid (drop 2 b) st
    b' ← slice_from (drop 2 b) n
    loop b' st'
]

-- `for { ... }` with fuel; every round that goes on takes three bytes or more.
unfoldable pub decode_fields : Runtime → Decoder → StructDesc → ℕ → Buf → State → Outcome State
decode_fields rt dec sd zero b st = stuck
decode_fields rt dec sd (suc fuel) b st = do
  tp ← read_byte b
  after_type rt dec sd (decode_fields rt dec sd fuel) tp (drop 1 b) st

-- Behind the loop: the first required field that was not decoded, and the unknown fields.
unfoldable pub finish : Runtime → StructDesc → Buf → Buf → State → Read
finish rt sd b xb st = do
  missing ← first_unset sd.required_field_ids st.bs
  elim missing [
    | some fid ↦ do
      f ← get_field sd fid
      elim f [ none ↦ panic | some _ ↦ err (required_field_not_set fid) ]
    | none ↦
        if sd.has_unknown_fields && ltb 0 (size st.ufs)
        then (do out ← copy st.ufs (rt.unknown_mem (size st.ufs)) b; ok (struct st.vs out, st.i))
        else ok (struct st.vs xb, st.i)
  ]

-- Decode below the depth limit, into the struct with the fields `vs` and unknown fields `xb`.
unfoldable pub decode_body : Runtime → Decoder → ℕ → StructDesc → Buf → Vals → Buf → Read
decode_body rt dec depth sd b vs xb = do
  bs ← unset_all sd.required_field_ids (rt.bitset depth b)
  st ←
      decode_fields rt dec sd (suc (length b)) b
        (record { vs = vs; bs = bs; ufs = reset (rt.unknowns depth b); i = 0 })
  finish rt sd b xb st
