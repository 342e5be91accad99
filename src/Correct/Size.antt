-- ===== src/Correct/Size.antt =====
-- EncodedSize measures the wire form of every value of the type that holds no struct by value.
use frugal.Base.{ℕ, zero, suc, ◌+◌, ◌≡◌, ap, ◌∙◌, arith, Bool, true, false}
use frugal.Base.{some, get_elem?, Outcome, ok, length}
use frugal.Base.{ltb, Bool-cases, inl, inr, if◌then◌else◌, length-append}
use frugal.Types.{DefType, t_struct, t_map, t_set, t_list, t_pointer, ttype_of, fixed_size}
use frugal.Types.{is_pointer, is_key_type, is_value_type, key_type, elem_type}
use frugal.Value.{Val, Vals, Entries, num, str, nil, slice, go_map, struct, ptr, end, item}
use frugal.Value.{no_entries, entry}
use frugal.Child.{Child, at_child}
use frugal.Codec.{child, children}
use frugal.Desc.{TField, StructDesc}
use frugal.Desc.Sizes.{SkipsOptional, IsDesc}
use frugal.Size.{elem_size, key_size}
use frugal.Size.{size_entries, size_elems, size_field, size_field_at}
use frugal.Spec.{field_form, forms, wire, wires}
use frugal.Spec.Typed.{IsTyped, holds, AllTyped, EntriesTyped, HasReadableDefault}
use frugal.Spec.Typed.{HoldsField}
use frugal.Correct.Append.{child-val}
use frugal.Correct.Measure.{value_size, size_field_at-form, struct-size}
use frugal.Correct.SizeShapes.{word_size, text_size, nil_size-form}
use frugal.Correct.SizeShapes.{struct_pointer_size, elem_size-value_size, key_size-value_size}
use frugal.Correct.SizeForms.{
  klen, vlen, ElemSizes, unless, EntrySizes, list_size-form, map_size-form, fixed_length,
}

module _ (ds : ℕ → StructDesc) where
  field_case :
      (v : Val) (f : TField)
      → SkipsOptional f
      → HasReadableDefault f
      → HoldsField f (some (v, IsTyped ds false v))
      → (IsTyped ds false v f.type
          → value_size f.type (child ds v) ≡ ok (length (wire ds v f.type)))
      → size_field_at f (child ds v) ≡ ok (length (field_form f (some (v, wire ds v))))
  unfolding child
  field_case v f s d h ih =
      let e = child-val ds v in
      rw e at (
        size_field_at-form ds false f s (child ds v) (wire ds v) d (rw e h) (λ hv. ih (rw e at hv)))

  item_case :
      (e : DefType) (v : Val) (vs : Vals)
      → is_value_type e ≡ true
      → value_size e (child ds v) ≡ ok (length (wire ds v e))
      → ElemSizes ds vs e
      → ElemSizes ds (item v vs) e
  unfolding wire child size_elems
  item_case e v vs he hv (fixed, walked) = (
    λ q. omega (
      arith,
      length-append (wire ds v e) (wires ds vs e),
      fixed_length e (child ds v) (length (wire ds v e)) q hv,
      fixed q,
    ),
    λ q ret.
        rw (elem_size-value_size e (child ds v) he q, hv)
          (walked q (ret + length (wire ds v e))
            ∙ ap ok (omega (arith, length-append (wire ds v e) (wires ds vs e)))),
  )

  -- One key or value of an entry, skipped where the size is fixed.
  part :
      (t : DefType) (c : Child) (m : Outcome ℕ) (n : ℕ)
      → (ltb 0 (fixed_size t) ≡ false → m ≡ value_size t c)
      → value_size t c ≡ ok n
      → (if ltb 0 (fixed_size t) then ok 0 else m) ≡ ok (unless ds (ltb 0 (fixed_size t)) n)
  part t c m n step h = elim (Bool-cases (ltb 0 (fixed_size t))) [
    | inl e ↦ rw e
    | inr e ↦ rw e (step e ∙ h)
  ]

  spread :
      (dk dv : Bool) (ret a b x y : ℕ)
      → ret + unless ds dk a + unless ds dv b + unless ds dk x + unless ds dv y
        ≡ ret + unless ds dk (a + x) + unless ds dv (b + y)
  spread true true ret a b x y = omega arith
  spread true false ret a b x y = omega arith
  spread false true ret a b x y = omega arith
  spread false false ret a b x y = omega arith

  done : (dk dv : Bool) (ret : ℕ) → ret ≡ ret + unless ds dk 0 + unless ds dv 0
  done true true ret = omega arith
  done true false ret = omega arith
  done false true ret = omega arith
  done false false ret = omega arith

  entry_case :
      (k v : Val) (es : Entries) (kt vt : DefType)
      → is_key_type kt ≡ true
      → is_value_type vt ≡ true
      → value_size kt (child ds k) ≡ ok (length (wire ds k kt))
      → value_size vt (child ds v) ≡ ok (length (wire ds v vt))
      → EntrySizes ds es kt vt
      → EntrySizes ds (entry k v es) kt vt
  unfolding child size_entries
  entry_case k v es kt vt hk hv pk pv (fk, fv, walk) = (
    λ q. omega (arith, fixed_length kt (child ds k) (length (wire ds k kt)) q pk, fk q),
    λ q. omega (arith, fixed_length vt (child ds v) (length (wire ds v vt)) q pv, fv q),
    λ ret.
        rw
          (
            part kt (child ds k) (key_size kt (child ds k)) (length (wire ds k kt))
                (key_size-value_size kt (child ds k) hk) pk,
            part vt (child ds v) (elem_size vt (child ds v)) (length (wire ds v vt))
                (elem_size-value_size vt (child ds v) hv) pv,
          )
          (walk (
              ret
              + unless ds (ltb 0 (fixed_size kt)) (length (wire ds k kt))
              + unless ds (ltb 0 (fixed_size vt)) (length (wire ds v vt)))
            ∙ ap ok (
                spread (ltb 0 (fixed_size kt)) (ltb 0 (fixed_size vt)) ret (length (wire ds k kt))
                  (length (wire ds v vt)) (klen ds es kt) (vlen ds es vt))),
  )

module _ (ds : ℕ → StructDesc) (descs : (s : ℕ) → IsDesc (ds s)) where
  mutual
    unfolding child wire fixed_size ttype_of elem_type key_type size_entries size_elems size_field
        is_pointer

    size_child :
        (v : Val) (t : DefType)
        → IsTyped ds false v t
        → value_size t (child ds v) ≡ ok (length (wire ds v t))
    size_child (num n) t h = (word_size t (child ds (num n)) n h).0
    size_child (str s) t h = (text_size ds t s h.0).0
    size_child nil t h = nil_size-form ds t h
    size_child (slice vs) (t_list e) (he, l, h) =
        list_size-form ds e vs (size_elems_child vs e he h)
    size_child (slice vs) (t_set e) (he, l, h) = list_size-form ds e vs (size_elems_child vs e he h)
    size_child (slice vs) _ h = absurd h
    size_child (go_map n es) (t_map k v) (hk, hv, e, l, r, h) =
        map_size-form ds k v n es e (size_entries_child es k v hk hv h)
    size_child (go_map n es) _ h = absurd h
    size_child (struct vs xb) t h = cc (h.0)
    size_child (ptr (num n)) (t_pointer t) h = (word_size t (child ds (ptr (num n))) n h).1
    size_child (ptr (str s)) (t_pointer t) h = (text_size ds t s h.0).1
    size_child (ptr (struct vs xb)) (t_pointer (t_struct s)) h = struct_pointer_size ds s vs xb (
        struct-size (children ds vs) (forms ds vs) (holds ds false vs)
          (λ f sk d hf. size_field_child vs f.offset f sk d hf) (ds s) xb (descs s) h)
    size_child (ptr nil) (t_pointer t) h = absurd h
    size_child (ptr (slice vs)) (t_pointer t) h = absurd h
    size_child (ptr (go_map n es)) (t_pointer t) h = absurd h
    size_child (ptr (ptr w)) (t_pointer t) h = absurd h
    size_child (ptr w) _ h = absurd h

    pub size_field_child :
        (vs : Vals) (i : ℕ) (f : TField)
        → SkipsOptional f
        → HasReadableDefault f
        → HoldsField f (get_elem? (holds ds false vs) i)
        → at_child (get_elem? (children ds vs) i) (size_field_at f)
          ≡ ok (length (field_form f (get_elem? (forms ds vs) i)))
    size_field_child end i f s d h = absurd h
    size_field_child (item v vs) zero f s d h =
        field_case ds v f s d h (λ hv. size_child v f.type hv)
    size_field_child (item v vs) (suc i) f s d h = size_field_child vs i f s d h

    size_elems_child :
        (vs : Vals) (e : DefType)
        → is_value_type e ≡ true
        → AllTyped ds false vs e
        → ElemSizes ds vs e
    size_elems_child end e he h = (λ q. omega arith, λ q ret. ap ok (omega arith))
    size_elems_child (item v vs) e he (hv, h) =
        item_case ds e v vs he (size_child v e hv) (size_elems_child vs e he h)

    size_entries_child :
        (es : Entries) (kt vt : DefType)
        → is_key_type kt ≡ true
        → is_value_type vt ≡ true
        → EntriesTyped ds false es kt vt
        → EntrySizes ds es kt vt
    size_entries_child no_entries kt vt hk hv h = (
      λ q. omega arith,
      λ q. omega arith,
      λ ret. ap ok (done ds (ltb 0 (fixed_size kt)) (ltb 0 (fixed_size vt)) ret),
    )
    size_entries_child (entry k v es) kt vt hk hv (pk, pv, h) =
        entry_case ds k v es kt vt hk hv (size_child k kt pk) (size_child v vt pv)
          (size_entries_child es kt vt hk hv h)
