-- ===== src/Correct/Loops.antt =====
-- The loops of appendStruct, appendListAny and appendMapAnyAny, given what each round appends.
use frugal.Base.{ℕ, suc, ◌%◌, ◌^◌, ◌<◌, ◌≡◌, sym, ap, ◌∙◌, arith, Bool, true, false}
use frugal.Base.{List, [], ◌∷◌, ◌++◌, some, append-nil, append_assoc, All, get_elem?}
use frugal.Base.{ok, length, if◌then◌else◌}
use frugal.Wire.{Buf}
use frugal.Types.{DefType, wire_type, tag}
use frugal.Value.{Val}
use frugal.Child.{Child}
use frugal.Desc.{TField, StructDesc}
use frugal.Desc.Sizes.{SkipsOptional}
use frugal.Encode.{append_field, append_fields, append_struct, at}
use frugal.Encode.{append_list_header}
use frugal.Encode.MapLoop.{append_map_header, map_len}
use frugal.Encode.MapLoop.{decrement}
use frugal.Spec.{Form, big_endian, field_form, fields_form, struct_form}
use frugal.Spec.Typed.{HasReadableDefault, Holds, HoldsField, HoldsFields}
use frugal.Correct.Words.{append_uint32-big_endian}
use frugal.Correct.Fields.{ttype_code-byte}
use frugal.Types.{ttype_code}

module _ (cs : List Child) (forms : List (Val × Form)) (hs : List Holds) where
  -- What the induction gives of one field, at any place in the struct.
  abbrev pub FieldAppends : Type 0
  FieldAppends =
      (f : TField) (b : Buf)
      → SkipsOptional f
      → HasReadableDefault f
      → HoldsField f (get_elem? hs f.offset)
      → append_field cs f b ≡ ok (b ++ field_form f (get_elem? forms f.offset))

  fields-append :
      FieldAppends
      → (fs : List TField) (b : Buf) → All SkipsOptional fs
      → HoldsFields fs hs
      → append_fields cs fs b ≡ ok (b ++ fields_form fs forms)
  unfolding append_fields fields_form
  fields-append ih [] b s h = ap ok (sym (append-nil b))
  fields-append ih (f ∷ fs) b (s, ss) (d, h, hs) = rw (ih f b s d h) (
      fields-append ih fs _ ss hs
      ∙ ap ok (append_assoc b (field_form f (get_elem? forms f.offset)) (fields_form fs forms)))

  pub struct-append :
      FieldAppends
      → (sd : StructDesc) (b xb : Buf) → All SkipsOptional sd.fields
      → HoldsFields sd.fields hs
      → append_struct sd b (at cs xb) ≡ ok (b ++ struct_form sd forms xb)
  unfolding append_struct struct_form
  struct-append ih sd b xb s h =
      rw (fields-append ih sd.fields b s h) (ap ok (tail sd.has_unknown_fields))
    where
      body : Buf
      body = fields_form sd.fields forms

      tail :
          (unknown : Bool)
          → (if unknown then (b ++ body) ++ xb else b ++ body) ++ (0 ∷ [])
            ≡ b ++ (body ++ ((if unknown then xb else []) ++ (0 ∷ [])))
      tail true = simp append_assoc
      tail false = append_assoc b body (0 ∷ [])

-- The list header and the map header in big-endian form.
pub append_list_header-form :
    (t : DefType) (b : Buf) (cs : List Child)
    → length cs < 2 ^ 32
    → append_list_header t b (some cs)
      ≡ (b ++ (wire_type t ∷ big_endian 4 (length cs)), length cs, cs)
unfolding append_list_header wire_type
append_list_header-form t b cs h =
    let e : length cs % 2 ^ 32 ≡ length cs = omega arith in
    rw (ttype_code-byte (tag t), e)
      (λ i. (
        (append_uint32-big_endian (b ++ (ttype_code (tag t) ∷ [])) (length cs)
              ∙ append_assoc b (ttype_code (tag t) ∷ []) (big_endian 4 (length cs)))
            i,
        length cs,
        cs,
      ))

pub append_map_header-form :
    (kt vt : DefType) (b : Buf) (n : ℕ) (es : List (Child × Child))
    → n < 2 ^ 32
    → append_map_header kt vt b (some (n, es)) ≡ b ++ (wire_type kt ∷ wire_type vt ∷ big_endian 4 n)
unfolding append_map_header map_len wire_type
append_map_header-form kt vt b n es h =
    let e : n % 2 ^ 32 ≡ n = omega arith in
    rw (ttype_code-byte (tag kt), ttype_code-byte (tag vt), e)
      (append_uint32-big_endian (b ++ (ttype_code (tag kt) ∷ ttype_code (tag vt) ∷ [])) n
        ∙ append_assoc b (ttype_code (tag kt) ∷ ttype_code (tag vt) ∷ []) (big_endian 4 n))

pub decrement-suc : (n : ℕ) → suc n < 2 ^ 31 → decrement (suc n) ≡ n
decrement-suc n h = omega arith
