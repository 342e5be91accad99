-- ===== src/Decode/RoundTrip/Nested.antt =====
-- Containers, nils and structs behind pointers, read from their wire forms if what they hold is.
use frugal.Base.{
  ℕ, zero, suc, ◌+◌, ◌*◌, ◌^◌, ◌≤◌, ◌<◌, ◌≡◌, refl, sym, ap, ◌∙◌, arith, length, ◌++◌, [], ◌∷◌,
}
use frugal.Base.{ok}
use frugal.Wire.{Buf, read_byte}
use frugal.Types.{DefType, t_binary, t_struct, t_map, t_set, t_list, t_pointer}
use frugal.Types.{
  tag, ttype_of, is_enum, is_pointer, fixed_size, min_wire_size, elem_type, key_type,
}
use frugal.Value.{Val, Vals, Entries, slice, go_map, struct, ptr, end, no_entries, len_entries}
use frugal.Desc.{StructDesc}
use frugal.Codec.{struct_of}
use frugal.UnknownFields.{reset, size}
use frugal.Spec.{big_endian, list_form, map_form, nil_form}
use frugal.Spec.Typed.{IsNilable}
use frugal.Decode.Required.{unset_all, first_unset}
use frugal.Decode.Runtime.{Runtime, decode_at, decode_elem}
use frugal.Decode.Containers.{decode_elems, decode_entries}
use frugal.Decode.Fields.{decode_body, decode_fields, after_type, finish}
use frugal.Decode.Walk.{decode_type, decode_struct, decode_case}
use frugal.Decode.Result.{new_struct, decoded_nil, NilDecodable}
use frugal.Decode.RoundTrip.Sequences.{list_read, map_read}
use frugal.Decode.RoundTrip.LeastSizes.{min_wire_size-positive}
use frugal.Decode.RoundTrip.Body.{no_unknown}
use frugal.Decode.RoundTrip.Shapes.{IsLaid, through, text_at}

module _ (rt : Runtime) (ds : ℕ → StructDesc) where
  pub list_at :
      (d n : ℕ) (e : DefType) (elems rest : Buf) (old : Val) (vs : Vals)
      → n < 2 ^ 31
      → n * min_wire_size (tag e) ≤ length elems
      → decode_elems rt (decode_type rt ds d) e n (elems ++ rest) 5 ≡ ok (vs, 5 + length elems)
      → (decode_at rt
            (decode_elem (decode_type rt ds (suc d)))
            (t_list e)
            (list_form e n elems ++ rest)
            old
          ≡ ok (slice vs, length (list_form e n elems)))
        × (decode_at rt
              (decode_elem (decode_type rt ds (suc d)))
              (t_set e)
              (list_form e n elems ++ rest)
              old
            ≡ ok (slice vs, length (list_form e n elems)))
  unfolding decode_at decode_elem is_pointer fixed_size decode_type decode_case ttype_of elem_type
  list_at d n e elems rest old vs l fits h = (
    list_read rt (decode_type rt ds d) (t_list e) n elems rest vs l (min_wire_size-positive e) fits
        h,
    list_read rt (decode_type rt ds d) (t_set e) n elems rest vs l (min_wire_size-positive e) fits
        h,
  )

  pub map_at :
      (d n : ℕ) (kt vt : DefType) (body rest : Buf) (old : Val) (es : Entries)
      → n < 2 ^ 31
      → n * (min_wire_size (tag kt) + min_wire_size (tag vt)) ≤ length body
      → decode_entries rt
          (decode_type rt ds d)
          kt
          vt
          n
          (body ++ rest)
          6
          (rt.tmp_vars (t_map kt vt)).0
          (rt.tmp_vars (t_map kt vt)).1
          no_entries
        ≡ ok (es, 6 + length body)
      → decode_at rt
          (decode_elem (decode_type rt ds (suc d)))
          (t_map kt vt)
          (map_form kt vt n body ++ rest)
          old
        ≡ ok (go_map (len_entries es) es, length (map_form kt vt n body))
  unfolding decode_at decode_elem is_pointer fixed_size decode_type decode_case ttype_of elem_type
      key_type
  map_at d n kt vt body rest old es l fits h =
      map_read rt (decode_type rt ds d) (t_map kt vt) n body rest es l (min_wire_size-positive kt)
        fits h

  -- A pointer to a struct: Decode one level below, into a new struct.
  pub struct_at :
      (d s : ℕ) (b : Buf) (old x : Val) (n : ℕ)
      → decode_struct rt ds (suc d) (ds s) b (new_struct rt ds s) ≡ ok (x, n)
      → decode_at rt (decode_elem (decode_type rt ds (suc (suc d)))) (t_pointer (t_struct s)) b old
        ≡ ok (ptr x, n)
  struct_at d s b old x n h =
      through rt _ (t_struct s) b old x n
        (unfold decode_elem fixed_size decode_type decode_case ttype_of struct_of in h)

  pub laid_struct :
      (d s : ℕ) (b : Buf) (l : IsLaid (ds s) (new_struct rt ds s))
      → decode_struct rt ds (suc d) (ds s) b (new_struct rt ds s)
        ≡ decode_body rt (decode_type rt ds d) d (ds s) b l.ws l.yb
  laid_struct d s b l =
      ap (λ v. decode_struct rt ds (suc d) (ds s) b v) l.shape ∙ (unfold decode_struct in refl)

  -- A lone stop byte, where no field is required.
  empty_body :
      (d s : ℕ) (rest yb : Buf) (ws : Vals)
      → (ds s).required_field_ids ≡ []
      → decode_body rt (decode_type rt ds d) d (ds s) (0 ∷ rest) ws yb ≡ ok (struct ws yb, 1)
  unfolding decode_body unset_all first_unset decode_fields after_type read_byte finish reset size
  empty_body d s rest yb ws e = rw e (no_unknown (ds s).has_unknown_fields _ _)

  -- What a nil is on the wire.
  pub nil_at :
      (t : DefType) (d : ℕ) (rest : Buf) (old : Val)
      → ((s : ℕ) → IsLaid (ds s) (new_struct rt ds s))
      → IsNilable t
      → NilDecodable rt ds (ttype_of t) d t
      → decode_at rt (decode_elem (decode_type rt ds d)) t (nil_form (ttype_of t) t ++ rest) old
        ≡ ok (decoded_nil rt ds (ttype_of t) t, length (nil_form (ttype_of t) t))
  unfolding nil_form decoded_nil ttype_of is_enum elem_type key_type decode_elems decode_entries
      struct_of big_endian
  nil_at t_binary (suc d) rest old laid h g = text_at rt ds d t_binary [] rest old tt (omega arith)
  nil_at (t_map k v) (suc d) rest old laid h g =
      map_at d 0 k v [] rest old no_entries (omega arith) (omega arith) refl
  nil_at (t_set v) (suc d) rest old laid h g =
      (list_at d 0 v [] rest old end (omega arith) (omega arith) refl).1
  nil_at (t_list v) (suc d) rest old laid h g =
      (list_at d 0 v [] rest old end (omega arith) (omega arith) refl).0
  nil_at (t_pointer (t_struct s)) (suc (suc d)) rest old laid h (_, e) =
      let l = laid s in
      struct_at d s (0 ∷ rest) old (new_struct rt ds s) 1 (
        laid_struct d s (0 ∷ rest) l
        ∙ empty_body d s rest l.yb l.ws e
        ∙ ap (λ v. ok (v, 1)) (sym l.shape))
  nil_at (t_pointer (t_struct s)) (suc zero) rest old laid h (g, e) = absurd (omega (arith, g))
  nil_at t_binary zero rest old laid h g = absurd (omega (arith, g))
  nil_at (t_map k v) zero rest old laid h g = absurd (omega (arith, g))
  nil_at (t_set v) zero rest old laid h g = absurd (omega (arith, g))
  nil_at (t_list v) zero rest old laid h g = absurd (omega (arith, g))
  nil_at (t_pointer (t_struct s)) zero rest old laid h (g, e) = absurd (omega (arith, g))
  nil_at _ _ rest old laid h g = absurd h
