-- ===== src/Decode/RoundTrip/FieldLoop.antt =====
-- The loop over the fields of Decode, and Decode as a whole, on the wire form of a struct.
use frugal.Base.{ℕ, suc, ◌+◌, ◌^◌, ◌<◌, ◌≡◌, ◌⊎◌, sym, ap, ◌∙◌, arith, true, false}
use frugal.Base.{
  List, [], ◌∷◌, ◌++◌, some, length, drop, append_assoc, length-append, drop-append, inl, inr,
  get_elem?,
}
use frugal.Base.{ok}
use frugal.Wire.{Buf, read_byte}
use frugal.Types.{DefType, wire_type}
use frugal.Value.{Val, Vals}
use frugal.Desc.{TField, StructDesc}
use frugal.Bitset.{Bitset, test}
use frugal.Spec.{Form, big_endian, is_omitted, field_form, fields_form}
use frugal.Correct.Words.{length-big_endian}
use frugal.Decode.Runtime.{Runtime, Decoder}
use frugal.Decode.Fields.{State, set_val, has_required, decode_round, after_type, decode_fields}
use frugal.Decode.Result.{Place, patch_field}
use frugal.Decode.RoundTrip.Leaves.{read_uint16-big_endian}
use frugal.Decode.RoundTrip.Sequences.{slice_from-append}
use frugal.Decode.RoundTrip.Structs.{Readable, wire_type-positive}

module _ (rt : Runtime) (dec : Decoder) (sd : StructDesc) where
  -- A written field, read in one round.
  pub fields_round :
      (fuel : ℕ) (f : TField) (w rest : Buf) (st st' : State)
      → f.id < 2 ^ 16
      → decode_round rt dec sd (wire_type f.type) f.id (w ++ rest) st ≡ ok (length w, st')
      → decode_fields rt dec sd
          (suc fuel)
          ((wire_type f.type ∷ (big_endian 2 f.id ++ w)) ++ rest)
          st
        ≡ decode_fields rt dec sd fuel rest st'
  unfolding decode_fields read_byte after_type
  fields_round fuel f w rest st st' lt h =
      let id = big_endian 2 f.id in
      let tail : drop 2 (id ++ (w ++ rest)) ≡ w ++ rest =
        rw (length-big_endian 2 f.id) at (drop-append id (w ++ rest)) in
      ap (λ z. decode_fields rt dec sd (suc fuel) (wire_type f.type ∷ z) st)
        (append_assoc id w rest)
      ∙ rw (
        after_type,
        wire_type-positive f.type,
        read_uint16-big_endian f.id (w ++ rest) lt,
        tail,
        h,
        slice_from-append w rest,
      )

module _ (rt : Runtime) (dec : Decoder) (sd : StructDesc) (forms : List (Val × Form))
    (ps : List Place) where
  -- A field of a struct of n: left out, or read back from its form.
  pub record FieldReads (n : ℕ) (f : TField) : Type 0 where
    pub v : Val
    pub form : Form
    pub r : DefType → Val
    pub form_at : get_elem? forms f.offset ≡ some (v, form)
    pub place_at : get_elem? ps f.offset ≡ some (v, r)
    pub inside : f.offset < n
    pub reads : (is_omitted f v ≡ true) ⊎ Readable rt dec sd f form r

  abbrev pub IsLeftOut : TField → Type 0
  IsLeftOut f =
      (v : Val) × (form : Form) × (get_elem? forms f.offset ≡ some (v, form))
      × (is_omitted f v ≡ true)

  abbrev pub IsMarked : Bitset → TField → Type 0
  IsMarked bs f = IsLeftOut f ⊎ (has_required sd ≡ true → test f.id bs ≡ ok true)

  pub left_out :
      (f : TField) (v : Val) (form : Form)
      → get_elem? forms f.offset ≡ some (v, form)
      → is_omitted f v ≡ true
      → field_form f (get_elem? forms f.offset) ≡ []
  unfolding field_form
  left_out f v form e om = rw (e, field_form, om)

  pub unpatched :
      (f : TField) (v : Val) (r : DefType → Val) (ws : Vals)
      → get_elem? ps f.offset ≡ some (v, r)
      → is_omitted f v ≡ true
      → patch_field f (get_elem? ps f.offset) ws ≡ ws
  unfolding patch_field
  unpatched f v r ws e om = rw (e, patch_field, om)

  pub on_wire :
      (f : TField) (v : Val) (form : Form)
      → get_elem? forms f.offset ≡ some (v, form)
      → is_omitted f v ≡ false
      → field_form f (get_elem? forms f.offset)
        ≡ wire_type f.type ∷ (big_endian 2 f.id ++ form f.type)
  unfolding field_form
  on_wire f v form e om = rw (e, field_form, om)

  pub patched :
      (f : TField) (v : Val) (r : DefType → Val) (ws : Vals)
      → get_elem? ps f.offset ≡ some (v, r)
      → is_omitted f v ≡ false
      → patch_field f (get_elem? ps f.offset) ws ≡ set_val ws f.offset (r f.type)
  unfolding patch_field
  patched f v r ws e om = rw (e, patch_field, om)

  pub readable :
      (n : ℕ) (f : TField) (rd : FieldReads n f)
      → is_omitted f rd.v ≡ false
      → Readable rt dec sd f rd.form rd.r
  readable n f rd kp = elim rd.reads [ inl om ↦ absurd (true_ne (sym om ∙ kp)) | inr rr ↦ rr ]
    where
      true_ne : true ≡ false → ⊥
      true_ne q = cc

  -- The state behind a written field.
  abbrev pub behind_field : TField → Buf → Val → Bitset → State → State
  behind_field f w x bs st = record st {
    vs = set_val st.vs f.offset x;
    bs = bs;
    i = st.i + 1 + 2 + length w;
  }

  pub shorter :
      (f : TField) (fs : List TField) (n fuel k : ℕ) (rd : FieldReads n f)
      → is_omitted f rd.v ≡ false
      → length (fields_form (f ∷ fs) forms) + k < suc fuel
      → length (fields_form fs forms) + k < fuel
  unfolding fields_form
  shorter f fs n fuel k rd kp h =
      let head = wire_type f.type ∷ (big_endian 2 f.id ++ rd.form f.type) in
      omega (
        arith,
        rw (on_wire f rd.v rd.form rd.form_at kp) at h,
        length-append head (fields_form fs forms),
      )
