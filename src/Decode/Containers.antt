-- ===== src/Decode/Containers.antt =====
-- The tLIST, tSET and tMAP cases of decodeType, of internal/reflect/decoder.go. `dec` is decodeType
-- at the depth below.
use frugal.Base.{ℕ, zero, suc, ◌+◌, ◌-◌, ◌/◌, ◌^◌, Bool, false, ◌&&◌, drop, length, ltb, leb, ◌==◌}
use frugal.Base.{Outcome, ok, err, ◌>>=◌, short_buffer, negative_size, size_exceeds_buffer}
use frugal.Base.{type_mismatch, type_mismatch_kv, if◌then◌else◌}
use frugal.Wire.{Buf, read_byte, read_uint32}
use frugal.Types.{DefType, ttype_of, tag, wire_type, min_wire_size, key_type, elem_type}
use frugal.Types.{list_header_len, map_header_len}
use frugal.Value.{Val, Vals, Entries, slice, go_map, end, item, no_entries, entry, len_entries}
use frugal.Child.{equal}
use frugal.Decode.{Read}
use frugal.Decode.Runtime.{Runtime, Decoder, slice_from, decode_elem, decode_at}
use mathlib.Core.Bool.{not}

-- The elements: `l` to go, with `b[i:]` and `i`.
unfoldable pub decode_elems : Runtime → Decoder → DefType → ℕ → Buf → ℕ → Outcome (Vals × ℕ)
decode_elems rt dec et zero b i = ok (end, i)
decode_elems rt dec et (suc l) b i = do
  (v, n) ← decode_at rt (decode_elem dec) et b (rt.fresh et)
  b' ← slice_from b n
  (vs, i') ← decode_elems rt dec et l b' (i + n)
  ok (item v vs, i')

-- Behind the header: the elements, if the buffer can hold so many.
unfoldable pub decode_list_body : Runtime → Decoder → DefType → ℕ → ℕ → Buf → Read
decode_list_body rt dec et tp l b =
    let remain = length b - list_header_len in
    if leb (2 ^ 31) l
    then err negative_size
    else if not (wire_type et == tp)
    then err (type_mismatch (wire_type et) tp)
    else if l == 0
    then ok (slice end, list_header_len)
    else if ltb (remain / min_wire_size (tag et)) l
    then err (size_exceeds_buffer l remain)
    else do
      (vs, i) ← decode_elems rt dec et l (drop list_header_len b) list_header_len
      ok (slice vs, i)

unfoldable pub decode_list : Runtime → Decoder → DefType → Buf → Read
decode_list rt dec t b = if ltb (length b) list_header_len then err short_buffer else do
  tp ← read_byte b
  l ← read_uint32 (drop 1 b)
  decode_list_body rt dec (elem_type t) tp l b

-- `==` on the keys of a map. Two pointers are to different variables
-- (those to structs without fields, which Go may give one address, are left out).
unfoldable pub same_key : DefType → Val → Val → Bool
same_key kt a b = elim (equal (ttype_of kt) a b) [ ok r ↦ r | _ ↦ false ]

-- SetMapIndex: the entries in the order in which their keys first came.
unfoldable pub set_map_index : DefType → Entries → Val → Val → Entries
set_map_index kt no_entries k v = entry k v no_entries
set_map_index kt (entry k' v' es) k v =
    let rest = set_map_index kt es k v in
    if same_key kt k' k then entry k v es else entry k' v' rest

-- The entries: `l` to go, with `b[i:]`, `i`, what the two temporary variables hold, and the map.
-- The variables are not cleared between the entries.
unfoldable pub decode_entries :
    Runtime
    → Decoder
    → DefType
    → DefType
    → ℕ
    → Buf
    → ℕ
    → Val
    → Val
    → Entries
    → Outcome (Entries × ℕ)
decode_entries rt dec kt vt zero b i k v es = ok (es, i)
decode_entries rt dec kt vt (suc l) b i k v es = do
  (k', n) ← decode_at rt (decode_elem dec) kt b k
  b₁ ← slice_from b n
  (v', m) ← decode_at rt (decode_elem dec) vt b₁ v
  b₂ ← slice_from b₁ m
  decode_entries rt dec kt vt l b₂ (i + n + m) k' v' (set_map_index kt es k' v')

unfoldable pub decode_map_body : Runtime → Decoder → DefType → ℕ → ℕ → ℕ → Buf → Read
decode_map_body rt dec t t0 t1 l b =
    let kt = key_type t in
    let vt = elem_type t in
    let remain = length b - map_header_len in
    if leb (2 ^ 31) l
    then err negative_size
    else if not (t0 == wire_type kt && t1 == wire_type vt)
    then err (type_mismatch_kv (wire_type kt) (wire_type vt) t0 t1)
    else if ltb (remain / (min_wire_size (tag kt) + min_wire_size (tag vt))) l
    then err (size_exceeds_buffer l remain)
    else do
      (es, i) ←
          decode_entries rt dec kt vt l (drop map_header_len b) map_header_len (rt.tmp_vars t).0
            (rt.tmp_vars t).1 no_entries
      ok (go_map (len_entries es) es, i)

unfoldable pub decode_map : Runtime → Decoder → DefType → Buf → Read
decode_map rt dec t b = if ltb (length b) map_header_len then err short_buffer else do
  t0 ← read_byte b
  t1 ← read_byte (drop 1 b)
  l ← read_uint32 (drop 2 b)
  decode_map_body rt dec t t0 t1 l b
