-- ===== src/Desc/Sizes.antt =====
-- What `fromDefsFields` guarantees of every descriptor that it returns: which fields may be
-- skipped, and that fixedLenFieldSize and varLenFields account for all fields.
use frugal.Base.{ℕ, suc, ◌+◌, ◌%◌, ◌^◌, ◌≡◌, refl, Bool, true, false, arith}
use frugal.Base.{
  List, [], ◌∷◌, Option, none, some, All, ok, Ensures, Ensures-bind, Ensures-ok, replicate,
}
use frugal.Types.{is_pointer, tag}
use frugal.Desc.{
  is_string, Field, TField, StructDesc, is_optional, tfield, from_defs_field, set_index,
}
use frugal.Desc.{fill_fields, fixed_sum, var_indices, required_ids, from_defs_fields, max_field_id}

-- A field that may be skipped is optional, one that is compared to a default is no pointer, and only
-- strings are decoded without a copy.
pub record SkipsOptional (f : TField) : Type 0 where
  pub if_nil : f.can_skip_encode_if_nil ≡ true → is_optional f.spec ≡ true
  pub if_default : f.can_skip_if_default ≡ true → is_optional f.spec ≡ true
  pub copies : f.no_copy ≡ true → is_string (tag f.type) ≡ true
  pub no_pointer : f.can_skip_if_default ≡ true → is_pointer f.type ≡ false

pub record IsDesc (d : StructDesc) : Type 0 where
  pub skips : All SkipsOptional d.fields
  pub fixed : d.fixed_len_field_size ≡ fixed_sum d.fields
  pub var : d.var_len_fields ≡ var_indices 0 d.fields
  pub required : d.required_field_ids ≡ required_ids d.fields

from_defs_field-SkipsOptional :
    (x : Field) {f : TField} → from_defs_field x ≡ ok f → SkipsOptional f
unfolding from_defs_field tfield
from_defs_field-SkipsOptional x h = record {
  if_nil = ground arith;
  if_default = ground arith;
  copies = ground arith;
  no_pointer = ground arith;
}

fill_fields-SkipsOptional :
    (ff : List Field) (i : ℕ) (idx : List (Option ℕ))
    → Ensures (λ r. All SkipsOptional r.0) (fill_fields i ff idx)
unfolding fill_fields
fill_fields-SkipsOptional [] i idx = tt
fill_fields-SkipsOptional (x ∷ ff) i idx = Ensures-bind _ (from_defs_field x) _ λ f e.
    Ensures-bind _ (set_index idx f.id (some i)) _ λ idx' _.
      Ensures-bind _ (fill_fields (suc i) ff idx') _ λ (fs, out) rest. (
        from_defs_field-SkipsOptional x e,
        Ensures-ok (λ r. All SkipsOptional r.0) rest (fill_fields-SkipsOptional ff (suc i) idx'),
      )

-- In every descriptor that fromDefsFields returns, a field that may be skipped is optional and one
-- that is compared to a default is no pointer, fixedLenFieldSize is the sum of the fixed field sizes,
-- varLenFields lists the other fields, and requiredFieldIDs the IDs of the required ones.
pub from_defs_fields-IsDesc :
    (init_func unknown : Bool) (ff : List Field) {d : StructDesc}
    → from_defs_fields init_func unknown ff ≡ ok d
    → IsDesc d
from_defs_fields-IsDesc init_func unknown ff {d} h = Ensures-ok IsDesc h built
  where
    idx : List (Option ℕ)
    idx = replicate ((max_field_id 0 ff + 1) % 2 ^ 16) none

    built : Ensures IsDesc (from_defs_fields init_func unknown ff)
    built =
        unfold from_defs_fields in
        Ensures-bind IsDesc (fill_fields 0 ff idx) _ λ (fs, out) e. record {
          skips = Ensures-ok (λ r. All SkipsOptional r.0) e (fill_fields-SkipsOptional ff 0 idx);
          fixed = refl;
          var = refl;
          required = refl;
        }
