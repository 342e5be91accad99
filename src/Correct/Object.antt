-- ===== src/Correct/Object.antt =====
-- The entries Append, EncodedSize and EncodeObject on whole structs.
use frugal.Base.{ℕ, ◌≡◌, false}
use frugal.Base.{length, ok}
use frugal.Wire.{Buf}
use frugal.Types.{t_struct}
use frugal.Value.{Vals, struct}
use frugal.Codec.{children, base_of, struct_of}
use frugal.Desc.{StructDesc}
use frugal.Desc.Sizes.{IsDesc}
use frugal.Size.{size_field}
use frugal.Entry.{object_size}
use frugal.Spec.{wire, forms}
use frugal.Spec.Typed.{HoldsFields, holds}
use frugal.Correct.Size.{size_field_child}
use frugal.Correct.Measure.{struct-size}

module _ (ds : ℕ → StructDesc) (descs : (s : ℕ) → IsDesc (ds s)) (s : ℕ) where
  pub size-eq-wire :
      (vs : Vals) (xb : Buf)
      → HoldsFields (ds s).fields (holds ds false vs)
      → object_size ds s (struct vs xb) ≡ ok (length (wire ds (struct vs xb) (t_struct s)))
  unfolding object_size base_of wire struct_of size_field
  size-eq-wire vs xb h =
      struct-size (children ds vs) (forms ds vs) (holds ds false vs)
        (λ f sk d hf. size_field_child ds descs vs f.offset f sk d hf) (ds s) xb (descs s) h
