-- ===== src/Correct/SizeForms.antt =====
-- encodedListSize and encodedMapSize of internal/reflect/ttype.go against the forms.
use frugal.Base.{ℕ, zero, suc, ◌+◌, ◌*◌, ◌≡◌, refl, sym, ap, ◌∙◌, arith, Bool, true, false, ◌&&◌}
use frugal.Base.{◌++◌, some, ok, length}
use frugal.Base.{ltb, ◌==◌, ==_ne, Bool-cases, inl, inr, if◌then◌else◌, length-append}
use frugal.Types.{DefType, fixed_size}
use frugal.Value.{Vals, Entries}
use frugal.Value.{no_entries, entry, len_vals, len_entries}
use frugal.Child.{Child}
use frugal.Codec.{children, child_entries}
use frugal.Desc.{StructDesc}
use frugal.Size.{encoded_list_size, encoded_map_size}
use frugal.Size.{size_entries, size_elems}
use frugal.Spec.{list_form, map_form, wire, wires}
use frugal.Spec.{wire_entries}
use frugal.Correct.Append.{length-children}
use frugal.Correct.Measure.{value_size}
use frugal.Correct.SizeShapes.{length-list_form, length-map_form}

pub fixed_length :
    (t : DefType) (c : Child) (n : ℕ)
    → ltb 0 (fixed_size t) ≡ true
    → value_size t c ≡ ok n
    → n ≡ fixed_size t
fixed_length t c n e h = cc (rw e at h)

not_fixed : (t : DefType) → ltb 0 (fixed_size t) ≡ false → fixed_size t ≡ 0
not_fixed t e = ground arith

module _ (ds : ℕ → StructDesc) where
  -- The lengths of the keys and of the values of a map.
  abbrev pub klen : Entries → DefType → ℕ
  klen no_entries t = 0
  klen (entry k v es) t = length (wire ds k t) + klen es t

  abbrev pub vlen : Entries → DefType → ℕ
  vlen no_entries t = 0
  vlen (entry k v es) t = length (wire ds v t) + vlen es t

  length-wire_entries :
      (es : Entries) (kt vt : DefType) → length (wire_entries ds es kt vt) ≡ klen es kt + vlen es vt
  unfolding wire
  length-wire_entries no_entries kt vt = omega arith
  length-wire_entries (entry k v es) kt vt = omega (
    arith,
    length-append (wire ds k kt) (wire ds v vt ++ wire_entries ds es kt vt),
    length-append (wire ds v vt) (wire_entries ds es kt vt),
    length-wire_entries es kt vt,
  )

  abbrev pub ElemSizes : Vals → DefType → Type 0
  ElemSizes vs e =
      (ltb 0 (fixed_size e) ≡ true → length (wires ds vs e) ≡ len_vals vs * fixed_size e)
      × (ltb 0 (fixed_size e) ≡ false
          → (ret : ℕ) → size_elems e (children ds vs) ret ≡ ok (ret + length (wires ds vs e)))

  pub list_size-form :
      (e : DefType) (vs : Vals)
      → ElemSizes vs e
      → encoded_list_size e (some (children ds vs))
        ≡ ok (length (list_form e (len_vals vs) (wires ds vs e)))
  unfolding encoded_list_size
  list_size-form e vs (fixed, walked) = elim (Bool-cases (ltb 0 (fixed_size e))) [
    | inl q ↦
        rw (q, length-children ds vs)
          (ap ok (omega (arith, length-list_form e (len_vals vs) (wires ds vs e), fixed q)))
    | inr q ↦ rw q (walked q 5 ∙ ap ok (sym (length-list_form e (len_vals vs) (wires ds vs e))))
  ]

  abbrev pub unless : Bool → ℕ → ℕ
  unless d n = if d then 0 else n

  abbrev pub EntrySizes : Entries → DefType → DefType → Type 0
  EntrySizes es kt vt =
      (ltb 0 (fixed_size kt) ≡ true → klen es kt ≡ len_entries es * fixed_size kt)
      × (ltb 0 (fixed_size vt) ≡ true → vlen es vt ≡ len_entries es * fixed_size vt)
      × ((ret : ℕ)
          → size_entries (ltb 0 (fixed_size kt)) (ltb 0 (fixed_size vt)) kt vt (child_entries ds es)
              ret
            ≡ ok (
                ret
                + unless (ltb 0 (fixed_size kt)) (klen es kt)
                + unless (ltb 0 (fixed_size vt)) (vlen es vt)))

  balanced :
      (t : DefType) (l n : ℕ)
      → (ltb 0 (fixed_size t) ≡ true → l ≡ n * fixed_size t)
      → n * fixed_size t + unless (ltb 0 (fixed_size t)) l ≡ l
  balanced t l n h = elim (Bool-cases (ltb 0 (fixed_size t))) [
    | inl e ↦ rw e (omega (arith, h e))
    | inr e ↦ rw (e, not_fixed t e) (omega arith)
  ]

  no_entries_sum :
      (es : Entries) (kt vt : DefType) → len_entries es ≡ 0 → klen es kt + vlen es vt ≡ 0
  no_entries_sum no_entries kt vt e = refl
  no_entries_sum (entry k v es) kt vt e = absurd (omega arith)

  map_total :
      (kt vt : DefType) (n : ℕ) (es : Entries)
      → n ≡ len_entries es
      → EntrySizes es kt vt
      → 6
          + n * fixed_size kt
          + n * fixed_size vt
          + unless (ltb 0 (fixed_size kt)) (klen es kt)
          + unless (ltb 0 (fixed_size vt)) (vlen es vt)
        ≡ length (map_form kt vt n (wire_entries ds es kt vt))
  map_total kt vt n es e (fk, fv, walk) = omega (
    arith,
    balanced kt (klen es kt) n (λ q. rw e (fk q)),
    balanced vt (vlen es vt) n (λ q. rw e (fv q)),
    length-map_form kt vt n (wire_entries ds es kt vt),
    length-wire_entries es kt vt,
  )

  pub map_size-form :
      (kt vt : DefType) (n : ℕ) (es : Entries)
      → n ≡ len_entries es
      → EntrySizes es kt vt
      → encoded_map_size kt vt (some (n, child_entries ds es))
        ≡ ok (length (map_form kt vt n (wire_entries ds es kt vt)))
  unfolding encoded_map_size
  map_size-form kt vt zero es e h = ap ok (
      omega (
        arith,
        no_entries_sum es kt vt (sym e),
        length-map_form kt vt 0 (wire_entries ds es kt vt),
        length-wire_entries es kt vt,
      ))
  map_size-form kt vt (suc n) es e h =
      let z : (suc n == 0) ≡ false = ==_ne (suc n) 0 (omega arith) in
      rw z (
        by_fixed (ltb 0 (fixed_size kt)) (ltb 0 (fixed_size vt)) (h.2 ret)
          (map_total kt vt (suc n) es e h))
    where
      ret : ℕ
      ret = 6 + suc n * fixed_size kt + suc n * fixed_size vt

      by_fixed :
          (dk dv : Bool) {total : ℕ}
          → size_entries dk dv kt vt (child_entries ds es) ret
            ≡ ok (ret + unless dk (klen es kt) + unless dv (vlen es vt))
          → ret + unless dk (klen es kt) + unless dv (vlen es vt) ≡ total
          → (if dk && dv then ok ret else size_entries dk dv kt vt (child_entries ds es) ret)
            ≡ ok total
      by_fixed true true w q = ap ok (omega (arith, q))
      by_fixed true false w q = w ∙ ap ok q
      by_fixed false dv w q = w ∙ ap ok q
