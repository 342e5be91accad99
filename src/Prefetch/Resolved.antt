-- ===== src/Prefetch/Resolved.antt =====
-- newStructDesc of internal/reflect/desc.go comes to an end.
use frugal.Base.{
  ℕ, Bool, true, ◌≡◌, ◌>>=◌, map_err, Error, suc, arith, if◌then◌else◌, List, [], ◌∷◌, Option, none,
  some, Outcome, ok, err, panic, fault, stuck, Runs, Runs-bind, Runs-if, Runs-map_err,
  Runs-ne-stuck, All, Answers,
}
use frugal.Wire.{Buf}
use mathlib.Core.Bool.{not, ◌&&◌, ◌||◌}
use frugal.Types.{DefType, is_value_type}
use frugal.Desc.{Field, from_defs_field, set_index, fill_fields, from_defs_fields, is_optional}
use frugal.Resolve.{
  StructField, Defaults, requiredness, scan_options, described_field, tagged_field, resolve_field,
  resolve_fields, do_resolve_fields, parse_uint16, lookup_struct_tag, has_id,
}
use frugal.Parse.{GoType, parse_type}
use frugal.Parse.Fits.{IsFlat, Fits, parse_type-Answers}
use frugal.Prefetch.{StructInfo, new_struct_desc}

-- A call that comes to an end, in whichever way.
unfoldable Ends {ℓ} : {A : Type ℓ} → Outcome A → Type 0
Ends r = Runs (λ a. Unit) r

module _ {ℓ} {A : Type ℓ} where
  Ends-ok : (a : A) → Ends (ok a)
  unfolding Ends
  Ends-ok a = tt

  Ends-if : (b : Bool) (x y : Outcome A) → Ends x → Ends y → Ends (if b then x else y)
  unfolding Ends
  Ends-if b x y h k = Runs-if (λ a. Unit) b x y h k

  Ends-map_err : (g : Error → Error) (m : Outcome A) → Ends m → Ends (map_err g m)
  unfolding Ends
  Ends-map_err g m h = Runs-map_err (λ a. Unit) g m h

  Ends-Answers : (P : A → Type 0) (r : Outcome A) → Answers P r → Ends r
  unfolding Ends
  Ends-Answers P (ok a) h = tt
  Ends-Answers P (err e) h = tt
  Ends-Answers P panic h = tt
  Ends-Answers P fault h = tt
  Ends-Answers P stuck h = h

Ends-err {ℓ} : (A : Type ℓ) (e : Error) → Ends {A = A} (err e)
unfolding Ends
Ends-err A e = tt

Ends-panic {ℓ} : (A : Type ℓ) → Ends {A = A} panic
unfolding Ends
Ends-panic A = tt

module _ {ℓ κ} {A : Type ℓ} {B : Type κ} where
  Ends-bind : (m : Outcome A) (f : A → Outcome B) → Ends m → ((a : A) → Ends (f a)) → Ends (m >>= f)
  unfolding Ends
  Ends-bind m f h g = Runs-bind (λ a. Unit) (λ b. Unit) m f h λ a q. g a

  Ends-Option :
      (o : Option A) (x : Outcome B) (f : A → Outcome B)
      → Ends x
      → ((a : A) → Ends (f a))
      → Ends (elim o [ none ↦ x | some a ↦ f a ])
  Ends-Option none x f h g = h
  Ends-Option (some a) x f h g = g a

requiredness-Ends : (tv : Buf) → Ends (requiredness tv)
unfolding requiredness Ends
requiredness-Ends tv = ground arith

scan_options-Ends : (t : DefType) (ft : List Buf) (nocopy : Bool) → Ends (scan_options t ft nocopy)
unfolding scan_options Ends
scan_options-Ends t [] nocopy = tt
scan_options-Ends t (o ∷ ft) nocopy = ground (arith, scan_options-Ends t ft true)

parse_type-Ends : (vt : GoType) (def : Buf) → IsFlat true vt → Ends (parse_type vt def)
parse_type-Ends vt def h = Ends-Answers (Fits vt) (parse_type vt def) (parse_type-Answers vt def h)

described_field-Ends :
    (mem : Defaults) (sf : StructField) (id : ℕ) (ft : List Buf)
    → IsFlat true sf.go_type
    → Ends (described_field mem sf id ft)
unfolding described_field
described_field-Ends mem sf id ft h = Ends-bind _ _ (requiredness-Ends _) λ rx.
    Ends-bind _ _ (Ends-map_err _ _ (parse_type-Ends sf.go_type _ h)) λ t.
      Ends-if (not (is_optional rx) && not (is_value_type t)) _ _ (Ends-err _ _)
        (Ends-bind _ _ (scan_options-Ends t _ _) λ nocopy. Ends-ok _)

tagged_field-Ends :
    (mem : Defaults) (sf : StructField) (ft : List Buf) (ids : List ℕ)
    → IsFlat true sf.go_type
    → Ends (tagged_field mem sf ft ids)
unfolding tagged_field
tagged_field-Ends mem sf [] ids h = Ends-err _ _
tagged_field-Ends mem sf (w ∷ ft) ids h =
    Ends-Option (parse_uint16 w) _ _ (Ends-err _ _)
      λ id. Ends-if (has_id ids id) _ _ (Ends-err _ _) (described_field-Ends mem sf id ft h)

resolve_field-Ends :
    (mem : Defaults) (sf : StructField) (ids : List ℕ)
    → IsFlat true sf.go_type
    → Ends (resolve_field mem sf ids)
unfolding resolve_field
resolve_field-Ends mem sf ids h = Ends-if (sf.anonymous || sf.private) _ _ (Ends-ok none) (
    Ends-Option (lookup_struct_tag sf) _ _ (Ends-ok none)
      λ ft. Ends-bind _ _ (tagged_field-Ends mem sf ft ids h) λ f. Ends-ok _)

-- No field's type has a pointer to a pointer.
abbrev pub IsFlatStruct : List StructField → Type 0
IsFlatStruct sfs = All (λ sf. IsFlat true sf.go_type) sfs

resolve_fields-Ends :
    (mem : Defaults) (sfs : List StructField) (ids : List ℕ)
    → IsFlatStruct sfs
    → Ends (resolve_fields mem sfs ids)
unfolding resolve_fields
resolve_fields-Ends mem [] ids h = Ends-ok []
resolve_fields-Ends mem (sf ∷ sfs) ids h = Ends-bind _ _ (resolve_field-Ends mem sf ids h.0) λ o.
    Ends-Option o _ _ (resolve_fields-Ends mem sfs ids h.1)
      λ f. Ends-bind _ _ (resolve_fields-Ends mem sfs (f.id ∷ ids) h.1) λ fs. Ends-ok _

from_defs_field-Ends : (x : Field) → Ends (from_defs_field x)
unfolding from_defs_field Ends
from_defs_field-Ends x = ground arith

set_index-Ends {ℓ} : {A : Type ℓ} (xs : List A) (i : ℕ) (v : A) → Ends (set_index xs i v)
unfolding set_index Ends
set_index-Ends xs i v = ground arith

fill_fields-Ends : (i : ℕ) (ff : List Field) (idx : List (Option ℕ)) → Ends (fill_fields i ff idx)
unfolding fill_fields
fill_fields-Ends i [] idx = Ends-ok _
fill_fields-Ends i (x ∷ ff) idx = Ends-bind _ _ (from_defs_field-Ends x) λ f.
    Ends-bind _ _ (set_index-Ends idx _ _)
      λ idx'. Ends-bind _ _ (fill_fields-Ends (suc i) ff idx') λ r. Ends-ok _

new_struct_desc-Ends : (x : StructInfo) → IsFlatStruct x.fields → Ends (new_struct_desc x)
unfolding new_struct_desc do_resolve_fields from_defs_fields
new_struct_desc-Ends x h =
    Ends-bind _ _ (Ends-bind _ _ (resolve_fields-Ends x.defaults x.fields [] h) λ fs. Ends-ok _)
      λ ff. Ends-bind _ _ (fill_fields-Ends _ ff _) λ r. Ends-ok _

pub new_struct_desc-ne-stuck :
    (x : StructInfo) → IsFlatStruct x.fields → new_struct_desc x ≡ stuck → ⊥
unfolding Ends
new_struct_desc-ne-stuck x h e = Runs-ne-stuck (λ a. Unit) (new_struct_desc-Ends x h) e
