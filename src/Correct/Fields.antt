-- ===== src/Correct/Fields.antt =====
-- One field of appendStruct against its form, given what its value appends.
use frugal.Base.{ℕ, ◌/◌, ◌%◌, ◌≡◌, refl, sym, ap, ◌∙◌, Bool, true, false, ◌&&◌}
use frugal.Base.{[], ◌∷◌, ◌++◌, some, append-nil, append_assoc}
use frugal.Base.{ok, map_err, field_err, Bool-cases, inl, inr, if◌then◌else◌}
use frugal.Wire.{Buf}
use frugal.Types.{TType, bool_t, wire_type, ttype_code, tag}
use frugal.Child.{Child, is_nil}
use frugal.Desc.{TField, StructDesc}
use frugal.Desc.Sizes.{SkipsOptional}
use frugal.Encode.{append_any, append_field_header, append_field_at}
use frugal.Spec.{Form, big_endian, is_omitted, field_form}
use frugal.Spec.Typed.{IsTyped, HasReadableDefault, HoldsField}
use frugal.Correct.Scalars.{skip_default-total}
use frugal.Correct.Defaults.{skip_default-is_default}

pub ttype_code-byte : (t : TType) → ttype_code t % 256 ≡ ttype_code t
unfolding ttype_code
ttype_code-byte bool_t = refl
ttype_code-byte _ = refl

append_field_header-form :
    (f : TField) (b : Buf) → append_field_header f b ≡ b ++ (wire_type f.type ∷ big_endian 2 f.id)
unfolding append_field_header big_endian wire_type
append_field_header-form f b =
    ap (λ w. b ++ (w ∷ f.id / 256 % 256 ∷ f.id % 256 ∷ [])) (ttype_code-byte (tag f.type))

module _ (ds : ℕ → StructDesc) (by_value : Bool) (f : TField) (s : SkipsOptional f) where
  field_value :
      (b : Buf) (c : Child) (form : Form)
      → ((b : Buf) → append_any f.type b c ≡ ok (b ++ form f.type))
      → map_err (field_err f.id) (append_any f.type (append_field_header f b) c)
        ≡ ok (b ++ (wire_type f.type ∷ (big_endian 2 f.id ++ form f.type)))
  field_value b c form ih = rw ih (
      ap ok (
        ap (λ r. r ++ form f.type) (append_field_header-form f b)
        ∙ append_assoc b (wire_type f.type ∷ big_endian 2 f.id) (form f.type)))

  pub append_field_at-form :
      (b : Buf) (c : Child) (form : Form)
      → HasReadableDefault f
      → HoldsField f (some (c.val, IsTyped ds by_value c.val))
      → (IsTyped ds by_value c.val f.type
          → (b : Buf) → append_any f.type b c ≡ ok (b ++ form f.type))
      → append_field_at f b c ≡ ok (b ++ field_form f (some (c.val, form)))
  unfolding append_field_at field_form is_omitted
  append_field_at-form b c form d (inl nilled) ih = rw nilled (ap ok (sym (append-nil b)))
  append_field_at-form b c form d (inr h) ih =
      let (skip, p) = skip_default-total ds by_value f c.val s d h in
      elim (Bool-cases (f.can_skip_encode_if_nil && is_nil c.val)) [
        | inl nilled ↦ rw nilled (ap ok (sym (append-nil b)))
        | inr there ↦ rw (there, p, skip_default-is_default f c.val skip p) (by_skip skip)
      ]
    where
      by_skip :
          (skip : Bool)
          → (if skip
              then ok b
              else map_err (field_err f.id) (append_any f.type (append_field_header f b) c))
            ≡ ok (b ++ (if skip then [] else wire_type f.type ∷ (big_endian 2 f.id ++ form f.type)))
      by_skip true = ap ok (sym (append-nil b))
      by_skip false = field_value b c form (ih h)
