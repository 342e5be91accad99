-- ===== src/Decode/Bounds/Containers.antt =====
-- Lists and maps end within the buffer if their elements do.
use frugal.Base.{ℕ, zero, suc, ◌+◌, ◌-◌, ◌^◌, ◌/◌, ◌≤◌, arith, ◌&&◌, length, drop, length-drop}
use frugal.Base.{
  Runs, Runs-bind, Runs-if, Runs-weaken, Bool-cases, inl, inr, ltb, leb, ◌==◌, not_ltb→le,
}
use frugal.Wire.{Buf, read_byte, read_uint32}
use frugal.Types.{DefType, key_type, elem_type, wire_type, min_wire_size, tag}
use frugal.Value.{Val, Entries, no_entries}
use frugal.Decode.Runtime.{Runtime, Decoder, slice_from, decode_elem, decode_at}
use frugal.Decode.Containers.{
  decode_elems, decode_list, decode_list_body, decode_entries, decode_map, decode_map_body,
  set_map_index,
}
use frugal.Decode.Bounds.{
  Fits, IsBounded, slice_from-Runs, decode_elem-IsBounded, decode_at-IsBounded, read_byte-Runs,
  read_uint32-Runs,
}
use mathlib.Core.Bool.{not}

module _ (rt : Runtime) (dec : Decoder) (bounded : IsBounded dec) where
  placed : IsBounded (decode_at rt (decode_elem dec))
  placed = decode_at-IsBounded rt (decode_elem dec) (decode_elem-IsBounded dec bounded)

  -- From i on, with the rest b.
  abbrev Ends {ℓ} : {A : Type ℓ} → Buf → ℕ → A × ℕ → Type 0
  Ends b i r = r.1 ≤ i + length b

  decode_elems-Runs :
      (et : DefType) (l : ℕ) (b : Buf) (i : ℕ) → Runs (Ends b i) (decode_elems rt dec et l b i)
  unfolding decode_elems
  decode_elems-Runs et zero b i = omega arith
  decode_elems-Runs et (suc l) b i =
      Runs-bind (Fits b) (Ends b i) (decode_at rt (decode_elem dec) et b (rt.fresh et)) _
        (placed et b _)
        λ (v, n) q. Runs-bind _ (Ends b i) (slice_from b n) _ (slice_from-Runs b n) λ b' (le, e).
          Runs-bind (Ends b' (i + n)) (Ends b i) (decode_elems rt dec et l b' (i + n)) _
            (decode_elems-Runs et l b' (i + n)) λ (vs, i') r. omega (arith, q, e, r)

  decode_list_body-Runs :
      (et : DefType) (tp l : ℕ) (b : Buf)
      → 5 ≤ length b
      → Runs (Fits b) (decode_list_body rt dec et tp l b)
  unfolding decode_list_body
  decode_list_body-Runs et tp l b h =
      let P = Fits {A = Val} b in
      Runs-if P (leb (2 ^ 31) l) _ _ tt (
        Runs-if P (not (wire_type et == tp)) _ _ tt (
          Runs-if P (l == 0) _ _ h (
            Runs-if P (ltb ((length b - 5) / min_wire_size (tag et)) l) _ _ tt (
              Runs-bind (Ends (drop 5 b) 5) P (decode_elems rt dec et l (drop 5 b) 5) _
                (decode_elems-Runs et l (drop 5 b) 5)
                λ (vs, i) q. omega (arith, q, h, length-drop 5 b)))))

  pub decode_list-Runs : (t : DefType) (b : Buf) → Runs (Fits b) (decode_list rt dec t b)
  unfolding decode_list
  decode_list-Runs t b = elim (Bool-cases (ltb (length b) 5)) [
    | inl e ↦ rw e tt
    | inr e ↦ rw e (
        Runs-bind _ (Fits b) (read_byte b) _ (read_byte-Runs b) λ tp _.
          Runs-bind _ (Fits b) (read_uint32 (drop 1 b)) _ (read_uint32-Runs (drop 1 b))
            λ l _. decode_list_body-Runs (elem_type t) tp l b (not_ltb→le (length b) 5 e))
  ]

  decode_entries-Runs :
      (kt vt : DefType) (l : ℕ) (b : Buf) (i : ℕ) (k v : Val) (es : Entries)
      → Runs (Ends b i) (decode_entries rt dec kt vt l b i k v es)
  unfolding decode_entries
  decode_entries-Runs kt vt zero b i k v es = omega arith
  decode_entries-Runs kt vt (suc l) b i k v es =
      Runs-bind (Fits b) (Ends b i) (decode_at rt (decode_elem dec) kt b k) _ (placed kt b k)
        λ (k', n) q. Runs-bind _ (Ends b i) (slice_from b n) _ (slice_from-Runs b n) λ b₁ (le, e).
          Runs-bind (Fits b₁) (Ends b i) (decode_at rt (decode_elem dec) vt b₁ v) _ (placed vt b₁ v)
            λ (v', m) p.
              Runs-bind _ (Ends b i) (slice_from b₁ m) _ (slice_from-Runs b₁ m) λ b₂ (le₂, e₂).
                Runs-weaken (Ends b₂ (i + n + m)) (Ends b i)
                  (decode_entries rt dec kt vt l b₂ (i + n + m) k' v' (set_map_index kt es k' v'))
                  (decode_entries-Runs kt vt l b₂ (i + n + m) k' v' (set_map_index kt es k' v'))
                  λ r h. omega (arith, q, e, p, e₂, h)

  decode_map_body-Runs :
      (t : DefType) (t0 t1 l : ℕ) (b : Buf)
      → 6 ≤ length b
      → Runs (Fits b) (decode_map_body rt dec t t0 t1 l b)
  unfolding decode_map_body
  decode_map_body-Runs t t0 t1 l b h =
      let P = Fits {A = Val} b in
      let kt = key_type t in
      let vt = elem_type t in
      Runs-if P (leb (2 ^ 31) l) _ _ tt (
        Runs-if P (not (t0 == wire_type kt && t1 == wire_type vt)) _ _ tt (
          Runs-if P (ltb ((length b - 6) / (min_wire_size (tag kt) + min_wire_size (tag vt))) l) _ _
            tt
            (Runs-bind (Ends (drop 6 b) 6) P
              (decode_entries rt dec kt vt l (drop 6 b) 6 (rt.tmp_vars t).0 (rt.tmp_vars t).1
                no_entries)
              _
              (decode_entries-Runs kt vt l (drop 6 b) 6 (rt.tmp_vars t).0 (rt.tmp_vars t).1
                no_entries)
              λ (es, i) q. omega (arith, q, h, length-drop 6 b))))

  pub decode_map-Runs : (t : DefType) (b : Buf) → Runs (Fits b) (decode_map rt dec t b)
  unfolding decode_map
  decode_map-Runs t b = elim (Bool-cases (ltb (length b) 6)) [
    | inl e ↦ rw e tt
    | inr e ↦ rw e (
        Runs-bind _ (Fits b) (read_byte b) _ (read_byte-Runs b) λ t0 _.
          Runs-bind _ (Fits b) (read_byte (drop 1 b)) _ (read_byte-Runs (drop 1 b)) λ t1 _.
            Runs-bind _ (Fits b) (read_uint32 (drop 2 b)) _ (read_uint32-Runs (drop 2 b))
              λ l _. decode_map_body-Runs t t0 t1 l b (not_ltb→le (length b) 6 e))
  ]
