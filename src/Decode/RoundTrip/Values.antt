-- ===== src/Decode/RoundTrip/Values.antt =====
-- decodeType and Decode on the wire form of any value that can be decoded.
use frugal.Base.{
  ℕ, zero, suc, ◌+◌, ◌≡◌, refl, sym, ap, ◌∙◌, arith, false, length, ◌++◌, append_assoc,
  length-append, get_elem?,
}
use frugal.Base.{Outcome, ok}
use frugal.Wire.{Buf}
use frugal.Types.{DefType, t_struct, t_map, t_set, t_list, t_pointer}
use frugal.Types.{elem_type, key_type}
use frugal.Value.{
  Val, Vals, Entries, num, str, nil, slice, go_map, struct, ptr, end, item, no_entries, entry,
  len_vals, len_entries,
}
use frugal.Desc.{TField, StructDesc}
use frugal.Desc.Sizes.{IsDesc, SkipsOptional}
use frugal.Desc.Table.{IsTable}
use frugal.Codec.{struct_of}
use frugal.Spec.{wire, wires, wire_entries}
use frugal.Spec.Typed.{IsTyped, AllTyped, EntriesTyped, HoldsField, holds}
use frugal.Decode.{Read}
use frugal.Decode.Runtime.{Runtime, Decoder, decode_at, decode_elem}
use frugal.Decode.Containers.{decode_elems, decode_entries, set_map_index}
use frugal.Decode.Walk.{decode_type}
use frugal.Decode.Result.{decoded, decoded_elems, decoded_entries, goods}
use frugal.Decode.Result.{FieldDecodable, IsDecodable, AllDecodable, EntriesDecodable}
use frugal.Decode.RoundTrip.Sequences.{elems_step, entries_step}
use frugal.Decode.RoundTrip.Keys.{
  join, join-nil, join-one, AreApart, set_map_index-join, apart-join,
}
use frugal.Decode.RoundTrip.LeastSizes.{wires-least, wire_entries-least}
use frugal.Decode.RoundTrip.Shapes.{IsRuntime, word_at, pointed_word, text_at, pointed_text}
use frugal.Decode.RoundTrip.Nested.{list_at, map_at, nil_at}
use frugal.Decode.RoundTrip.Children.{ChildReads, field_here, fields_read, pointed_struct}

read_none :
    (acc : Entries) (i : ℕ) {m : Outcome (Entries × ℕ)}
    → m ≡ ok (acc, i)
    → m ≡ ok (join acc no_entries, i + 0)
read_none acc i h = rw (join-nil acc) (h ∙ ap (λ k. ok (acc, k)) (omega arith))

put_entry :
    (rt : Runtime) (dec : Decoder) (kt vt : DefType) (l : ℕ) (b : Buf) (i : ℕ) (k v : Val)
    (acc es : Entries) {j : ℕ}
    → AreApart kt acc (entry k v es)
    → decode_entries rt dec kt vt l b i k v (join acc (entry k v no_entries))
      ≡ ok (join (join acc (entry k v no_entries)) es, j)
    → decode_entries rt dec kt vt l b i k v (set_map_index kt acc k v)
      ≡ ok (join acc (entry k v es), j)
put_entry rt dec kt vt l b i k v acc es {j} apart h =
    rw (set_map_index-join kt acc k v es apart) (h ∙ ap (λ z. ok (z, j)) (join-one acc k v es))

len-decoded :
    (rt : Runtime) (ds : ℕ → StructDesc) (es : Entries) (kt vt : DefType)
    → len_entries (decoded_entries rt ds es kt vt) ≡ len_entries es
unfolding decoded
len-decoded rt ds no_entries kt vt = refl
len-decoded rt ds (entry k v es) kt vt = ap suc (len-decoded rt ds es kt vt)

counted :
    {n k : ℕ} {out : Entries} {m : Read}
    → n ≡ len_entries out
    → m ≡ ok (go_map (len_entries out) out, k)
    → m ≡ ok (go_map n out, k)
counted {n} {k} {out} e h = h ∙ ap (λ c. ok (go_map c out, k)) (sym e)

module _ (rt : Runtime) (ds : ℕ → StructDesc) (run : IsRuntime rt ds)
    (descs : (s : ℕ) → IsDesc (ds s)) (tables : (s : ℕ) → IsTable (ds s)) where
  mutual
    unfolding wire decoded elem_type key_type struct_of decode_elems decode_entries join

    -- What is read of a value's wire form, whatever follows it and whatever the variable held.
    pub read_value :
        (v : Val) (d : ℕ) (t : DefType) (rest : Buf) (old : Val)
        → IsTyped ds false v t
        → IsDecodable rt ds v d t
        → decode_at rt (decode_elem (decode_type rt ds d)) t (wire ds v t ++ rest) old
          ≡ ok (decoded rt ds v t, length (wire ds v t))
    read_value (num n) d t rest old h g = word_at rt (decode_type rt ds d) t n rest old h
    read_value (str s) (suc d) t rest old (h, l, _) g = text_at rt ds d t s rest old h l
    read_value (str s) zero t rest old h g = absurd (omega (arith, g))
    read_value nil d t rest old h g = nil_at rt ds t d rest old run.laid h g
    read_value (slice vs) (suc d) (t_list e) rest old (_, l, h) (_, g) =
        (list_at rt ds d (len_vals vs) e (wires ds vs e) rest old (decoded_elems rt ds vs e) l
          (wires-least ds vs e h) (read_elems vs d e rest 5 h g)).0
    read_value (slice vs) (suc d) (t_set e) rest old (_, l, h) (_, g) =
        (list_at rt ds d (len_vals vs) e (wires ds vs e) rest old (decoded_elems rt ds vs e) l
          (wires-least ds vs e h) (read_elems vs d e rest 5 h g)).1
    read_value (slice vs) zero t rest old h (g, _) = absurd (omega (arith, g))
    read_value (slice vs) _ _ rest old h g = absurd h
    read_value (go_map n es) (suc d) (t_map k v) rest old (_, _, e, l, _, h) (_, g) =
        let tmp = rt.tmp_vars (t_map k v) in
        counted (e ∙ sym (len-decoded rt ds es k v)) (
          map_at rt ds d n k v (wire_entries ds es k v) rest old (decoded_entries rt ds es k v) l
            (rw e (wire_entries-least ds es k v h))
            (rw e (read_entries es d k v rest 6 tmp.0 tmp.1 no_entries h g tt)))
    read_value (go_map n es) zero t rest old h (g, _) = absurd (omega (arith, g))
    read_value (go_map n es) _ _ rest old h g = absurd h
    read_value (struct vs xb) d t rest old h g = cc
    read_value (ptr (num n)) d (t_pointer u) rest old h g =
        pointed_word rt (decode_type rt ds d) u n rest old h
    read_value (ptr (str s)) (suc d) (t_pointer u) rest old (h, l, _) g =
        pointed_text rt ds d u s rest old h l
    read_value (ptr (str s)) zero (t_pointer u) rest old h g = absurd (omega (arith, g))
    read_value (ptr (struct vs xb)) (suc (suc d)) (t_pointer (t_struct s)) rest old h (_, (e, g)) =
        pointed_struct rt ds d s vs xb rest old (descs s) (tables s) run e λ n inside.
          fields_read rt ds d n vs (ds s) (λ f sk hf gf. read_field vs f.offset f d sk hf gf)
            (ds s).fields (descs s).skips inside h g
    read_value (ptr (struct vs xb)) (suc zero) (t_pointer u) rest old h (g, _) =
        absurd (omega (arith, g))
    read_value (ptr (struct vs xb)) zero (t_pointer u) rest old h (g, _) = absurd (omega (arith, g))
    read_value (ptr nil) d (t_pointer u) rest old h g = absurd h
    read_value (ptr (slice vs)) d (t_pointer u) rest old h g = absurd h
    read_value (ptr (go_map n es)) d (t_pointer u) rest old h g = absurd h
    read_value (ptr (ptr w)) d (t_pointer u) rest old h g = absurd h
    read_value (ptr w) d _ rest old h g = absurd h

    pub read_field :
        (vs : Vals) (i : ℕ) (f : TField) (d : ℕ)
        → SkipsOptional f
        → HoldsField f (get_elem? (holds ds false vs) i)
        → FieldDecodable d f (get_elem? (goods rt ds vs) i)
        → ChildReads rt ds d vs i f
    read_field end i f d s h g = absurd h
    read_field (item v vs) zero f d s h g =
        field_here rt ds d v vs f s h g (λ rest old h g. read_value v d f.type rest old h g)
    read_field (item v vs) (suc i) f d s h g =
        let c = read_field vs i f d s h g in
        record {
          v = c.v;
          form = c.form;
          r = c.r;
          form_at = c.form_at;
          place_at = c.place_at;
          reads = c.reads;
        }

    read_elems :
        (vs : Vals) (d : ℕ) (e : DefType) (rest : Buf) (i : ℕ)
        → AllTyped ds false vs e
        → AllDecodable rt ds vs d e
        → decode_elems rt (decode_type rt ds d) e (len_vals vs) (wires ds vs e ++ rest) i
          ≡ ok (decoded_elems rt ds vs e, i + length (wires ds vs e))
    read_elems end d e rest i h g = ap (λ k. ok (end, k)) (omega arith)
    read_elems (item v vs) d e rest i (hv, h) (gv, g) =
        let w = wire ds v e in
        let ws = wires ds vs e in
        rw (append_assoc w ws rest, length-append w ws)
          (elems_step rt (decode_type rt ds d) e (len_vals vs) i _ w (ws ++ rest)
            (decoded rt ds v e) (decoded_elems rt ds vs e)
            (read_value v d e (ws ++ rest) (rt.fresh e) hv gv)
            (read_elems vs d e rest (i + length w) h g
              ∙ ap (λ k. ok (decoded_elems rt ds vs e, k)) (omega arith)))

    read_entries :
        (es : Entries) (d : ℕ) (kt vt : DefType) (rest : Buf) (i : ℕ) (k₀ v₀ : Val) (acc : Entries)
        → EntriesTyped ds false es kt vt
        → EntriesDecodable rt ds es d kt vt
        → AreApart kt acc (decoded_entries rt ds es kt vt)
        → decode_entries rt
            (decode_type rt ds d)
            kt
            vt
            (len_entries es)
            (wire_entries ds es kt vt ++ rest)
            i
            k₀
            v₀
            acc
          ≡ ok (join acc (decoded_entries rt ds es kt vt), i + length (wire_entries ds es kt vt))
    read_entries no_entries d kt vt rest i k₀ v₀ acc h g apart = read_none acc i refl
    read_entries (entry k v es) d kt vt rest i k₀ v₀ acc (hk, hv, h) (gk, gv, n, g) apart =
        let u = wire ds k kt in
        let w = wire ds v vt in
        let ws = wire_entries ds es kt vt in
        let k' = decoded rt ds k kt in
        let v' = decoded rt ds v vt in
        let es' = decoded_entries rt ds es kt vt in
        rw
          (
            append_assoc u (w ++ ws) rest,
            append_assoc w ws rest,
            length-append u (w ++ ws),
            length-append w ws,
          )
          (entries_step rt (decode_type rt ds d) kt vt (len_entries es) i _ u w (ws ++ rest) k₀ v₀
            k' v' acc _ (read_value k d kt (w ++ (ws ++ rest)) k₀ hk gk)
            (read_value v d vt (ws ++ rest) v₀ hv gv)
            (put_entry rt (decode_type rt ds d) kt vt (len_entries es) (ws ++ rest)
                (i + length u + length w) k' v' acc es' apart
                (read_entries es d kt vt rest (i + length u + length w) k' v'
                  (join acc (entry k' v' no_entries)) h g (apart-join kt acc k' v' es' apart n))
              ∙ ap (λ j. ok (join acc (entry k' v' es'), j)) (omega arith)))
