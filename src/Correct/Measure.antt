-- ===== src/Correct/Measure.antt =====
-- The loops of EncodedSize against the lengths of the forms, given what each child measures.
use frugal.Base.{ℕ, suc, ◌+◌, ◌≡◌, refl, sym, ap, ◌∙◌, arith, Bool, true, false, ◌&&◌}
use frugal.Base.{List, [], ◌∷◌, ◌++◌, Option, none, some, append_assoc, All, get_elem?}
use frugal.Base.{
  Outcome, ok, ◌>>=◌, length, length-append, ltb, Bool-cases, inl, inr, if◌then◌else◌,
}
use frugal.Wire.{Buf}
use frugal.Types.{DefType, fixed_size, is_pointer, wire_type, ttype_of, field_header_len}
use frugal.Value.{Val}
use frugal.Child.{Child, is_nil, at_child, load}
use frugal.Desc.{TField, StructDesc, field_encoded_size, fixed_sum, var_indices, is_string}
use frugal.Desc.Sizes.{SkipsOptional, IsDesc}
use frugal.Encode.{at, skip_default}
use frugal.Size.{
  size_field, size_field_at, field_size, size_fields, encoded_size, encoded_string_size,
}
use frugal.Spec.{Form, big_endian, field_form, fields_form, struct_form, is_omitted}
use frugal.Spec.Typed.{HasReadableDefault, Holds, HoldsField, HoldsFields, IsTyped}
use frugal.Correct.Defaults.{skip_default-is_default}
use frugal.Correct.Scalars.{skip_default-total}
use frugal.Correct.Words.{length-big_endian}

-- The size of a value at a child, however EncodedSize comes by it.
abbrev pub value_size : DefType → Child → Outcome ℕ
value_size t c =
    if ltb 0 (fixed_size t)
    then ok (fixed_size t)
    else if is_string (ttype_of t)
    then (do v ← (if is_pointer t then load c.val else ok c.val); encoded_string_size v)
    else c.size_func t

pub field_size-value_size :
    (f : TField) (c : Child) (n : ℕ)
    → value_size f.type c ≡ ok n
    → field_size f c ≡ ok (field_header_len + n)
unfolding field_size
field_size-value_size f c n h = elim (Bool-cases (ltb 0 (fixed_size f.type))) [
  | inl e ↦ rw e (ground (arith, rw e at h))
  | inr e ↦ rw (e, rw e at h)
]

-- A field that fixedLenFieldSize counts has that size.
fixed_field :
    (f : TField) (c : Child) (n : ℕ)
    → SkipsOptional f
    → field_encoded_size f ≡ some n
    → size_field_at f c ≡ ok n
unfolding field_encoded_size size_field_at field_size skip_default
fixed_field f c n s h = ground arith

length-field :
    (w id : ℕ) (out : Buf) → length (w ∷ (big_endian 2 id ++ out)) ≡ field_header_len + length out
length-field w id out = omega (arith, length-append (big_endian 2 id) out, length-big_endian 2 id)

module _ (ds : ℕ → StructDesc) (by_value : Bool) (f : TField) (s : SkipsOptional f) where
  pub size_field_at-form :
      (c : Child) (form : Form)
      → HasReadableDefault f
      → HoldsField f (some (c.val, IsTyped ds by_value c.val))
      → (IsTyped ds by_value c.val f.type → value_size f.type c ≡ ok (length (form f.type)))
      → size_field_at f c ≡ ok (length (field_form f (some (c.val, form))))
  unfolding size_field_at field_form is_omitted
  size_field_at-form c form d (inl nilled) ih = rw nilled
  size_field_at-form c form d (inr h) ih =
      let (skip, p) = skip_default-total ds by_value f c.val s d h in
      elim (Bool-cases (f.can_skip_encode_if_nil && is_nil c.val)) [
        | inl nilled ↦ rw nilled
        | inr there ↦ rw (there, p, skip_default-is_default f c.val skip p) (by_skip skip)
      ]
    where
      by_skip :
          (skip : Bool)
          → (if skip then ok 0 else field_size f c)
            ≡ ok (
                length (if skip then [] else wire_type f.type ∷ (big_endian 2 f.id ++ form f.type)))
      by_skip true = refl
      by_skip false =
          field_size-value_size f c _ (ih h)
          ∙ ap ok (sym (length-field (wire_type f.type) f.id (form f.type)))

get_elem?-append {ℓ} :
    {A : Type ℓ} (pre : List A) (x : A) (post : List A)
    → get_elem? (pre ++ (x ∷ post)) (length pre) ≡ some x
get_elem?-append [] x post = refl
get_elem?-append (y ∷ pre) x post = get_elem?-append pre x post

module _ (cs : List Child) (forms : List (Val × Form)) (hs : List Holds) where
  abbrev flen : TField → ℕ
  flen f = length (field_form f (get_elem? forms f.offset))

  -- What the induction gives of one field, at any place in the struct.
  abbrev pub FieldSizes : Type 0
  FieldSizes =
      (f : TField)
      → SkipsOptional f
      → HasReadableDefault f
      → HoldsField f (get_elem? hs f.offset)
      → size_field cs f ≡ ok (flen f)

  fixed_flen :
      (f : TField) (n : ℕ)
      → SkipsOptional f
      → field_encoded_size f ≡ some n
      → size_field cs f ≡ ok (flen f)
      → flen f ≡ n
  unfolding size_field
  fixed_flen f n s e h = at (get_elem? cs f.offset) h
    where
      at : (o : Option Child) → at_child o (size_field_at f) ≡ ok (flen f) → flen f ≡ n
      at none h = cc
      at (some c) h = cc (fixed_field f c n s e)

  -- The lengths of the fields that varLenFields lists.
  var_sum : List TField → ℕ
  var_sum [] = 0
  var_sum (f ∷ fs) = (elim (field_encoded_size f) [ none ↦ flen f | some n ↦ 0 ]) + var_sum fs

  length-fields_form :
      FieldSizes
      → (fs : List TField) → All SkipsOptional fs
      → HoldsFields fs hs
      → length (fields_form fs forms) ≡ fixed_sum fs + var_sum fs
  unfolding fields_form fixed_sum var_sum
  length-fields_form ih [] s h = refl
  length-fields_form ih (f ∷ fs) (s, ss) (d, h, hs) = ground (
    arith,
    length-append (field_form f (get_elem? forms f.offset)) (fields_form fs forms),
    length-fields_form ih fs ss hs,
    by_size (field_encoded_size f) refl,
  )
    where
      by_size :
          (o : Option ℕ)
          → field_encoded_size f ≡ o
          → flen f ≡ (elim o [ none ↦ 0 | some n ↦ n ]) + (elim o [ none ↦ flen f | some n ↦ 0 ])
      by_size none e = omega arith
      by_size (some n) e = omega (arith, fixed_flen f n s e (ih f s d h))

  size_fields-var :
      FieldSizes
      → (pre fs : List TField) (ret : ℕ) → All SkipsOptional fs
      → HoldsFields fs hs
      → size_fields (pre ++ fs) cs (var_indices (length pre) fs) ret ≡ ok (ret + var_sum fs)
  unfolding size_fields var_indices var_sum
  size_fields-var ih pre [] ret s h = ap ok (omega arith)
  size_fields-var ih pre (f ∷ fs) ret (s, ss) (d, h, hs) =
      step (λ ret. size_fields-var ih (pre ++ (f ∷ [])) fs ret ss hs) (field_encoded_size f)
    where
      next : List TField
      next = pre ++ (f ∷ [])

      len : length next ≡ suc (length pre)
      len = omega (arith, length-append pre (f ∷ []))

      step :
          ((ret : ℕ)
            → size_fields (next ++ fs) cs (var_indices (length next) fs) ret
              ≡ ok (ret + var_sum fs))
          → (o : Option ℕ)
          → size_fields
              (pre ++ (f ∷ fs))
              cs
              (elim o [
                | none ↦ length pre ∷ var_indices (suc (length pre)) fs
                | some n ↦ var_indices (suc (length pre)) fs
              ])
              ret
            ≡ ok (ret + ((elim o [ none ↦ flen f | some n ↦ 0 ]) + var_sum fs))
      step rest none =
          rw (get_elem?-append pre f fs, ih f s d h)
            (rw (append_assoc pre (f ∷ []) fs, len) at (rest (ret + flen f)) ∙ ap ok (omega arith))
      step rest (some n) =
          rw (append_assoc pre (f ∷ []) fs, len) at (rest ret) ∙ ap ok (omega arith)

  -- EncodedSize of a struct: the length of its form.
  pub struct-size :
      FieldSizes
      → (sd : StructDesc) (xb : Buf) → IsDesc sd
      → HoldsFields sd.fields hs
      → encoded_size sd (at cs xb) ≡ ok (length (struct_form sd forms xb))
  unfolding encoded_size struct_form
  struct-size ih sd xb i h =
      let var = size_fields-var ih [] sd.fields sd.fixed_len_field_size i.skips h in
      rw (i.var, var) (ap ok (total sd.has_unknown_fields))
    where
      body : Buf
      body = fields_form sd.fields forms

      total :
          (unknown : Bool)
          → (if unknown
                then sd.fixed_len_field_size + var_sum sd.fields + length xb
                else sd.fixed_len_field_size + var_sum sd.fields)
              + 1
            ≡ length (body ++ ((if unknown then xb else []) ++ (0 ∷ [])))
      total true = omega (
        arith,
        i.fixed,
        length-fields_form ih sd.fields i.skips h,
        length-append body (xb ++ (0 ∷ [])),
        length-append xb (0 ∷ []),
      )
      total false =
          omega
            (arith, i.fixed, length-fields_form ih sd.fields i.skips h, length-append body (0 ∷ []))
