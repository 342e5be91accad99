-- ===== src/Correct/Shapes.antt =====
-- appendAny on each shape of a value, given what its children append.
use frugal.Base.{ℕ, zero, suc, ◌%◌, ◌^◌, ◌<◌, ◌≡◌, refl, sym, ap, ◌∙◌, arith, true, false}
use frugal.Base.{List, [], ◌∷◌, ◌++◌, none, some, append-nil, append_assoc}
use frugal.Base.{ok, length, ◌==◌, ==_ne}
use frugal.Wire.{Buf, append_uint32}
use frugal.Types.{DefType}
use frugal.Types.{t_binary, t_struct, t_map, t_set, t_list, t_pointer, ttype_of, tag, wire_type}
use frugal.Types.{is_pointer, simple_type, is_key_type, is_value_type, key_type, elem_type}
use frugal.Types.{ttype_code}
use frugal.Value.{Vals, Entries, nil, slice, go_map}
use frugal.Child.{Child}
use frugal.Codec.{child, children, child_entries, struct_of}
use frugal.Desc.{StructDesc}
use frugal.Encode.{append_any, append_other, append_simple, append_struct, list_loop}
use frugal.Encode.{append_list_any, append_list_header, append_list, list_append_func}
use frugal.Encode.MapLoop.{map_loop, append_map, append_map_any_any, append_map_header, map_len}
use frugal.Encode.MapLoop.{map_entries}
use frugal.Encode.MapFast.{map_append_func}
use frugal.Spec.{big_endian, nil_form, list_form, map_form}
use frugal.Spec.Typed.{IsNilable, is_read_whole}
use frugal.Correct.Words.{append_uint32-big_endian}
use frugal.Correct.Fields.{ttype_code-byte}
use frugal.Correct.Loops.{append_list_header-form, append_map_header-form}
use frugal.Correct.FastPaths.{list_append_func-eq-append_list_any}
use frugal.Correct.FastPaths.{
  map_append_func-eq-append_map_any_any, map_append_func-empty, HasBools,
}

-- A nil slice and a nil map.
nil_list :
    (e : DefType) (b : Buf)
    → is_value_type e ≡ true
    → list_append_func (ttype_of e) e b none ≡ ok (b ++ list_form e 0 [])
nil_list e b h =
    list_append_func-eq-append_list_any e b none h
    ∙ unfold append_list_any append_list append_list_header list_loop list_form big_endian
        wire_type in
      ap (λ w. ok (b ++ (w ∷ 0 ∷ 0 ∷ 0 ∷ 0 ∷ []))) (ttype_code-byte (tag e))

nil_map :
    (k v : DefType) (b : Buf)
    → map_append_func (ttype_of k) (ttype_of v) k v b none ≡ ok (b ++ map_form k v 0 [])
nil_map k v b = map_append_func-empty k v b none (unfold map_len in refl) ∙ header
  where
    header : ok (append_map_header k v b none) ≡ ok (b ++ map_form k v 0 [])
    header =
        unfold append_map_header map_len map_form wire_type in
        rw (ttype_code-byte (tag k), ttype_code-byte (tag v))
          (ap ok (
            append_uint32-big_endian (b ++ (ttype_code (tag k) ∷ ttype_code (tag v) ∷ [])) 0
            ∙ append_assoc b (ttype_code (tag k) ∷ ttype_code (tag v) ∷ []) (big_endian 4 0)
            ∙ unfold big_endian in refl))

module _ (ds : ℕ → StructDesc) where
  nil_text : (b : Buf) → append_any t_binary b (child ds nil) ≡ ok (b ++ big_endian 4 0)
  unfolding append_any simple_type is_pointer child append_simple append_uint32 big_endian
  nil_text b = ap ok (append-nil _)

  pub append_any-nil :
      (t : DefType) (b : Buf)
      → IsNilable t
      → append_any t b (child ds nil) ≡ ok (b ++ nil_form (ttype_of t) t)
  unfolding append_any append_other simple_type is_pointer child ttype_of nil_form struct_of
      key_type elem_type append_struct
  append_any-nil t_binary b h = nil_text b
  append_any-nil (t_map k v) b h = nil_map k v b
  append_any-nil (t_set e) b h = nil_list e b h
  append_any-nil (t_list e) b h = nil_list e b h
  append_any-nil (t_pointer (t_struct s)) b h = refl
  append_any-nil (t_pointer u) b h = absurd h
  append_any-nil _ b h = absurd h

-- A slice whose elements append `out` in turn.
slice_list :
    (e : DefType) (b : Buf) (cs : List Child) (out : Buf)
    → is_value_type e ≡ true
    → length cs < 2 ^ 31
    → ((b : Buf) → list_loop (append_any e) (length cs) cs b ≡ ok (b ++ out))
    → list_append_func (ttype_of e) e b (some cs) ≡ ok (b ++ list_form e (length cs) out)
slice_list e b cs out h l loop =
    list_append_func-eq-append_list_any e b (some cs) h
    ∙ unfold append_list_any append_list list_form in
      rw (append_list_header-form e b cs (omega arith)) (
        loop (b ++ (wire_type e ∷ big_endian 4 (length cs)))
        ∙ ap ok (append_assoc b (wire_type e ∷ big_endian 4 (length cs)) out))

any_any_map :
    (k v : DefType) (b : Buf) (n : ℕ) (es : List (Child × Child)) (out : Buf)
    → n < 2 ^ 31
    → (n ≡ 0 → out ≡ [])
    → ((b : Buf) → map_loop (append_any k) (append_any v) n es b ≡ ok (b ++ out))
    → append_map_any_any k v b (some (n, es)) ≡ ok (b ++ map_form k v n out)
unfolding append_map_any_any append_map map_form map_entries map_len
any_any_map k v b zero es out l empty loop = rw (empty refl) (
    ap ok (
      append_map_header-form k v b 0 es (omega arith)
      ∙ ap (λ r. b ++ (wire_type k ∷ wire_type v ∷ r)) (sym (append-nil (big_endian 4 0)))))
any_any_map k v b (suc n) es out l empty loop =
    let e : suc n % 2 ^ 32 ≡ suc n = omega arith in
    let z : (suc n == 0) ≡ false = ==_ne (suc n) 0 (omega arith) in
    rw (e, z, append_map_header-form k v b (suc n) es (omega arith))
      (loop (b ++ (wire_type k ∷ wire_type v ∷ big_endian 4 (suc n)))
        ∙ ap ok (append_assoc b (wire_type k ∷ wire_type v ∷ big_endian 4 (suc n)) out))

-- A map whose entries append `out` in turn.
entries_map :
    (k v : DefType) (b : Buf) (n : ℕ) (es : List (Child × Child)) (out : Buf)
    → is_key_type k ≡ true
    → is_value_type v ≡ true
    → is_read_whole k v ≡ true
    → n < 2 ^ 31
    → (n ≡ 0 → out ≡ [])
    → HasBools k v es
    → ((b : Buf) → map_loop (append_any k) (append_any v) n es b ≡ ok (b ++ out))
    → map_append_func (ttype_of k) (ttype_of v) k v b (some (n, es)) ≡ ok (b ++ map_form k v n out)
entries_map k v b n es out hk hv r l empty bools loop =
    map_append_func-eq-append_map_any_any k v hk hv r b (some (n, es)) (unfold map_entries in bools)
    ∙ any_any_map k v b n es out l empty loop

module _ (ds : ℕ → StructDesc) where
  abbrev ElemsAppend : DefType → Vals → Buf → Type 0
  ElemsAppend e vs out =
      (b : Buf)
      → list_loop (append_any e) (length (children ds vs)) (children ds vs) b ≡ ok (b ++ out)

  pub append_any-list :
      (e : DefType) (b : Buf) (vs : Vals) (out : Buf)
      → is_value_type e ≡ true
      → length (children ds vs) < 2 ^ 31
      → ElemsAppend e vs out
      → append_any (t_list e) b (child ds (slice vs))
        ≡ ok (b ++ list_form e (length (children ds vs)) out)
  unfolding append_any append_other child simple_type is_pointer elem_type
  append_any-list e b vs out h l loop = slice_list e b (children ds vs) out h l loop

  pub append_any-set :
      (e : DefType) (b : Buf) (vs : Vals) (out : Buf)
      → is_value_type e ≡ true
      → length (children ds vs) < 2 ^ 31
      → ElemsAppend e vs out
      → append_any (t_set e) b (child ds (slice vs))
        ≡ ok (b ++ list_form e (length (children ds vs)) out)
  unfolding append_any append_other child simple_type is_pointer elem_type
  append_any-set e b vs out h l loop = slice_list e b (children ds vs) out h l loop

  pub append_any-map :
      (k v : DefType) (b : Buf) (n : ℕ) (es : Entries) (out : Buf)
      → is_key_type k ≡ true
      → is_value_type v ≡ true
      → is_read_whole k v ≡ true
      → n < 2 ^ 31
      → (n ≡ 0 → out ≡ [])
      → HasBools k v (child_entries ds es)
      → ((b : Buf)
          → map_loop (append_any k) (append_any v) n (child_entries ds es) b ≡ ok (b ++ out))
      → append_any (t_map k v) b (child ds (go_map n es)) ≡ ok (b ++ map_form k v n out)
  unfolding append_any append_other child simple_type is_pointer elem_type key_type
  append_any-map k v b n es out hk hv r l empty bools loop =
      entries_map k v b n (child_entries ds es) out hk hv r l empty bools loop
