-- ===== src/Decode/RoundTrip/Sequences.antt =====
-- Lists, sets and maps, read from their wire form if their elements are.
use frugal.Base.{
  ℕ, zero, suc, ◌+◌, ◌-◌, ◌*◌, ◌/◌, ◌^◌, ◌≤◌, ◌<◌, ◌≡◌, ap, ◌∙◌, arith, false, ==_self, ==_ne, ltb,
}
use frugal.Base.{
  ◌∷◌, ◌++◌, length, drop, append_assoc, length-append, drop-append, le→not_ltb, lt→not_leb, le→leb,
}
use frugal.Base.{ok, ◌>>=◌}
use frugal.Wire.{Buf, read_byte, read_uint32}
use frugal.Types.{DefType, wire_type, min_wire_size, tag, elem_type, key_type}
use frugal.Value.{Val, Vals, Entries, slice, go_map, item, no_entries, len_entries}
use frugal.Spec.{big_endian, list_form, map_form}
use frugal.Correct.Words.{length-big_endian}
use frugal.Decode.Runtime.{Runtime, Decoder, slice_from, decode_elem, decode_at}
use frugal.Decode.Containers.{
  decode_elems, decode_list, decode_list_body, decode_entries, decode_map, decode_map_body,
  set_map_index,
}
use frugal.Decode.RoundTrip.Leaves.{read_uint32-big_endian}
use native.Mathlib.Nat.{le-div_iff_mul-le}

pub slice_from-append : (w r : Buf) → slice_from (w ++ r) (length w) ≡ ok r
unfolding slice_from
slice_from-append w r =
    rw (le→leb (length w) (length (w ++ r)) (omega (arith, length-append w r)), drop-append w r)

-- A count that the buffer can hold passes the check.
pub fits_check : (l m r : ℕ) → 0 < m → l * m ≤ r → ltb (r / m) l ≡ false
fits_check l m r pos h = le→not_ltb l (r / m) ((le-div_iff_mul-le pos).1 h)

pub read_header :
    (x n : ℕ) (body : Buf) → n < 2 ^ 32 → read_uint32 (drop 1 (x ∷ (big_endian 4 n ++ body))) ≡ ok n
read_header x n body h = read_uint32-big_endian n body h

module _ (rt : Runtime) (dec : Decoder) where
  pub elems_step :
      (e : DefType) (l i j : ℕ) (w r : Buf) (x : Val) (xs : Vals)
      → decode_at rt (decode_elem dec) e (w ++ r) (rt.fresh e) ≡ ok (x, length w)
      → decode_elems rt dec e l r (i + length w) ≡ ok (xs, j)
      → decode_elems rt dec e (suc l) (w ++ r) i ≡ ok (item x xs, j)
  unfolding decode_elems
  elems_step e l i j w r x xs h k = rw (h, slice_from-append w r, k)

  pub entries_step :
      (kt vt : DefType) (l i j : ℕ) (u w r : Buf) (k₀ v₀ k v : Val) (es out : Entries)
      → decode_at rt (decode_elem dec) kt (u ++ (w ++ r)) k₀ ≡ ok (k, length u)
      → decode_at rt (decode_elem dec) vt (w ++ r) v₀ ≡ ok (v, length w)
      → decode_entries rt dec kt vt l r (i + length u + length w) k v (set_map_index kt es k v)
        ≡ ok (out, j)
      → decode_entries rt dec kt vt (suc l) (u ++ (w ++ r)) i k₀ v₀ es ≡ ok (out, j)
  unfolding decode_entries
  entries_step kt vt l i j u w r k₀ v₀ k v es out hk hv h =
      rw (hk, slice_from-append u (w ++ r), hv, slice_from-append w r, h)

  list_body_read :
      (e : DefType) (n j : ℕ) (b tail : Buf) (vs : Vals)
      → n < 2 ^ 31
      → 0 < min_wire_size (tag e)
      → n * min_wire_size (tag e) ≤ length tail
      → length b ≡ 5 + length tail
      → drop 5 b ≡ tail
      → decode_elems rt dec e n tail 5 ≡ ok (vs, j)
      → decode_list_body rt dec e (wire_type e) n b ≡ ok (slice vs, j)
  unfolding decode_list_body decode_elems
  list_body_read e zero j b tail vs l pos fits len d h =
      rw (==_self (wire_type e)) (ap (λ m. m >>= λ (vs, i). ok (slice vs, i)) h)
  list_body_read e (suc n) j b tail vs l pos fits len d h = rw (
    lt→not_leb (suc n) (2 ^ 31) l,
    ==_self (wire_type e),
    ==_ne (suc n) 0 (λ q. absurd (omega (arith, q))),
    fits_check (suc n) (min_wire_size (tag e)) (length b - 5) pos (omega (arith, len, fits)),
    d,
    h,
  )

  pub list_read :
      (t : DefType) (n : ℕ) (elems rest : Buf) (vs : Vals)
      → n < 2 ^ 31
      → 0 < min_wire_size (tag (elem_type t))
      → n * min_wire_size (tag (elem_type t)) ≤ length elems
      → decode_elems rt dec (elem_type t) n (elems ++ rest) 5 ≡ ok (vs, 5 + length elems)
      → decode_list rt dec t (list_form (elem_type t) n elems ++ rest)
        ≡ ok (slice vs, length (list_form (elem_type t) n elems))
  unfolding decode_list list_form read_byte
  list_read t n elems rest vs l pos fits h =
      let e = elem_type t in
      let b = wire_type e ∷ (big_endian 4 n ++ (elems ++ rest)) in
      let be = length-big_endian 4 n in
      let len : length b ≡ 5 + length (elems ++ rest) =
        omega (arith, length-append (big_endian 4 n) (elems ++ rest), be) in
      let tail : drop 5 b ≡ elems ++ rest =
        rw be at (drop-append (big_endian 4 n) (elems ++ rest)) in
      rw
        (
          append_assoc (big_endian 4 n) elems rest,
          le→not_ltb 5 (length b) (omega (arith, len)),
          read_uint32-big_endian n (elems ++ rest) (omega (arith, l)),
        )
        (list_body_read e n (5 + length elems) b (elems ++ rest) vs l pos
            (omega (arith, fits, length-append elems rest)) len tail h
          ∙ ap (λ k. ok (slice vs, k)) (omega (arith, length-append (big_endian 4 n) elems, be)))

  pub map_read :
      (t : DefType) (n : ℕ) (body rest : Buf) (es : Entries)
      → n < 2 ^ 31
      → 0 < min_wire_size (tag (key_type t))
      → n * (min_wire_size (tag (key_type t)) + min_wire_size (tag (elem_type t))) ≤ length body
      → decode_entries rt dec
          (key_type t)
          (elem_type t)
          n
          (body ++ rest)
          6
          (rt.tmp_vars t).0
          (rt.tmp_vars t).1
          no_entries
        ≡ ok (es, 6 + length body)
      → decode_map rt dec t (map_form (key_type t) (elem_type t) n body ++ rest)
        ≡ ok (go_map (len_entries es) es, length (map_form (key_type t) (elem_type t) n body))
  unfolding decode_map decode_map_body map_form read_byte
  map_read t n body rest es l pos fits h =
      let kt = key_type t in
      let vt = elem_type t in
      let m = min_wire_size (tag kt) + min_wire_size (tag vt) in
      let b = wire_type kt ∷ wire_type vt ∷ (big_endian 4 n ++ (body ++ rest)) in
      let be = length-big_endian 4 n in
      let l1 = length-append body rest in
      let l2 = length-append (big_endian 4 n) (body ++ rest) in
      let tail : drop 6 b ≡ body ++ rest = rw be at (drop-append (big_endian 4 n) (body ++ rest)) in
      rw
        (
          append_assoc (big_endian 4 n) body rest,
          le→not_ltb 6 (length b) (omega (arith, l2, be)),
          read_uint32-big_endian n (body ++ rest) (omega (arith, l)),
          lt→not_leb n (2 ^ 31) l,
          ==_self (wire_type kt),
          ==_self (wire_type vt),
          fits_check n m (length b - 6) (omega (arith, pos)) (omega (arith, fits, l1, l2, be)),
          tail,
          h,
        )
        (ap (λ k. ok (go_map (len_entries es) es, k))
          (omega (arith, length-append (big_endian 4 n) body, be)))
