-- ===== src/Desc/Accounts.antt =====
-- fixedLenFieldSize, varLenFields and requiredFieldIDs of the descriptors that fromDefsFields
-- returns (internal/reflect/desc.go, lines 199 to 230), against the fields.
use frugal.Base.{
  ℕ, zero, suc, ◌+◌, ◌%◌, ◌^◌, ◌<◌, ◌≡◌, refl, ap, ◌∙◌, arith, Bool, true, false, ◌&&◌, ◌||◌, ◌==◌,
  if◌then◌else◌,
}
use frugal.Base.{
  List, [], ◌∷◌, Option, none, some, get_elem?, ok, Ensures, Ensures-bind, Ensures-ok, replicate,
  ltb, Bool-cases, inl, inr, ==_self, ==_ne,
}
use mathlib.Core.Bool.{not}
use frugal.Types.{is_pointer, fixed_size, field_header_len}
use frugal.Desc.{Field, TField, StructDesc, is_optional, is_required, field_encoded_size}
use frugal.Desc.{fixed_sum, var_indices, required_ids, fill_fields, from_defs_fields, max_field_id}
use frugal.Decode.Required.{elem}

-- A field that is always on the wire, in one size: no pointer, not optional, and of a scalar type.
unfoldable pub is_sized : TField → Bool
is_sized f = not (is_pointer f.type) && (not (is_optional f.spec) && ltb 0 (fixed_size f.type))

abbrev pub is_unsized_at : Option TField → Bool
is_unsized_at none = false
is_unsized_at (some f) = not (is_sized f)

-- The sizes of the fields whose indices are not listed, `i` the index reached.
unfoldable pub unlisted_total : List ℕ → ℕ → List TField → ℕ
unlisted_total is i [] = 0
unlisted_total is i (f ∷ fs) =
    (if elem i is then 0 else field_header_len + fixed_size f.type) + unlisted_total is (suc i) fs

unfoldable pub is_required_id : List TField → ℕ → Bool
is_required_id [] j = false
is_required_id (f ∷ fs) j = (is_required f.spec && (f.id == j)) || is_required_id fs j

pub record Accounts (d : StructDesc) : Type 0 where
  pub listed : (i : ℕ) → elem i d.var_len_fields ≡ is_unsized_at (get_elem? d.fields i)
  pub total : d.fixed_len_field_size ≡ unlisted_total d.var_len_fields 0 d.fields
  pub required : (j : ℕ) → elem j d.required_field_ids ≡ is_required_id d.fields j

field_encoded_size-is_sized :
    (f : TField)
    → field_encoded_size f
      ≡ (if is_sized f then some (field_header_len + fixed_size f.type) else none)
unfolding field_encoded_size is_sized
field_encoded_size-is_sized f = ground arith

-- The cases of an encoded size, by that a field has one.
by_size {ℓ} :
    {A : Type ℓ} (f : TField) (x : A) (y : ℕ → A)
    → (elim (field_encoded_size f) [ none ↦ x | some n ↦ y n ])
      ≡ (if is_sized f then y (field_header_len + fixed_size f.type) else x)
by_size f x y =
    ap (λ o. elim o [ none ↦ x | some n ↦ y n ]) (field_encoded_size-is_sized f)
    ∙ if_case (is_sized f)
  where
    if_case :
        (t : Bool)
        → (elim (if t then some (field_header_len + fixed_size f.type) else none) [
          | none ↦ x
          | some n ↦ y n
        ])
          ≡ (if t then y (field_header_len + fixed_size f.type) else x)
    if_case true = refl
    if_case false = refl

var_indices-cons :
    (i : ℕ) (f : TField) (fs : List TField)
    → var_indices i (f ∷ fs)
      ≡ (if is_sized f then var_indices (suc i) fs else i ∷ var_indices (suc i) fs)
unfolding var_indices
var_indices-cons i f fs = by_size f _ _

var_indices-below : (fs : List TField) (i j : ℕ) → j < i → elem j (var_indices i fs) ≡ false
var_indices-below [] i j h = unfold var_indices in refl
var_indices-below (f ∷ fs) i j h =
    let rest = var_indices-below fs (suc i) j (omega arith) in
    elim (Bool-cases (is_sized f)) [
      | inl e ↦ rw (var_indices-cons i f fs, e) rest
      | inr e ↦ rw (var_indices-cons i f fs, e, ==_ne i j (omega arith)) rest
    ]

var_indices-listed :
    (fs : List TField) (i k j : ℕ)
    → j ≡ i + k
    → elem j (var_indices i fs) ≡ is_unsized_at (get_elem? fs k)
var_indices-listed [] i k j h = unfold var_indices in refl
var_indices-listed (f ∷ fs) i zero j h = elim (Bool-cases (is_sized f)) [
  | inl e ↦ rw (var_indices-cons i f fs, e) (var_indices-below fs (suc i) j (omega arith))
  | inr e ↦ let q : i ≡ j = omega arith in rw (var_indices-cons i f fs, e, q, ==_self j) refl
]
var_indices-listed (f ∷ fs) i (suc k) j h =
    let rest = var_indices-listed fs (suc i) k j (omega arith) in
    elim (Bool-cases (is_sized f)) [
      | inl e ↦ rw (var_indices-cons i f fs, e) rest
      | inr e ↦ rw (var_indices-cons i f fs, e, ==_ne i j (omega arith)) rest
    ]

fixed_sum-cons :
    (f : TField) (fs : List TField)
    → fixed_sum (f ∷ fs)
      ≡ (if is_sized f then field_header_len + fixed_size f.type else 0) + fixed_sum fs
unfolding fixed_sum
fixed_sum-cons f fs = ap (λ n. n + fixed_sum fs) (by_size f 0 (λ n. n))

fixed_sum-unlisted_total :
    (is : List ℕ) (fs : List TField) (i : ℕ)
    → ((k j : ℕ) → j ≡ i + k → elem j is ≡ is_unsized_at (get_elem? fs k))
    → fixed_sum fs ≡ unlisted_total is i fs
unfolding unlisted_total
fixed_sum-unlisted_total is [] i h = unfold fixed_sum in refl
fixed_sum-unlisted_total is (f ∷ fs) i h =
    let here : elem i is ≡ not (is_sized f) = h 0 i (omega arith) in
    let rest : fixed_sum fs ≡ unlisted_total is (suc i) fs =
      fixed_sum-unlisted_total is fs (suc i) λ k j e. h (suc k) j (omega arith) in
    elim (Bool-cases (is_sized f)) [
      | inl e ↦ rw (fixed_sum-cons f fs, here, e, rest) refl
      | inr e ↦ rw (fixed_sum-cons f fs, here, e, rest) refl
    ]

required_ids-required : (fs : List TField) (j : ℕ) → elem j (required_ids fs) ≡ is_required_id fs j
unfolding required_ids is_required_id
required_ids-required [] j = refl
required_ids-required (f ∷ fs) j = elim (Bool-cases (is_required f.spec)) [
  | inl e ↦ rw e (ap (λ t. (f.id == j) || t) (required_ids-required fs j))
  | inr e ↦ rw e (required_ids-required fs j)
]

-- In every descriptor that fromDefsFields returns, varLenFields has the index of a field exactly if
-- the field is a pointer, optional or of a type without a fixed size, and no other number;
-- fixedLenFieldSize is the sum of the header and the type's size over the fields that varLenFields
-- does not list; and requiredFieldIDs has an ID exactly if a required field has it.
pub from_defs_fields-Accounts :
    (init_func unknown : Bool) (ff : List Field) {d : StructDesc}
    → from_defs_fields init_func unknown ff ≡ ok d
    → Accounts d
from_defs_fields-Accounts init_func unknown ff {d} h = Ensures-ok Accounts h built
  where
    idx : List (Option ℕ)
    idx = replicate ((max_field_id 0 ff + 1) % 2 ^ 16) none

    built : Ensures Accounts (from_defs_fields init_func unknown ff)
    built =
        unfold from_defs_fields in
        Ensures-bind Accounts (fill_fields 0 ff idx) _ λ (fs, out) e. record {
          listed = λ i. var_indices-listed fs 0 i i (omega arith);
          total = fixed_sum-unlisted_total (var_indices 0 fs) fs 0 (var_indices-listed fs 0);
          required = required_ids-required fs;
        }
