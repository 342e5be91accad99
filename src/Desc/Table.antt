-- ===== src/Desc/Table.antt =====
-- The table of fieldIdx of a descriptor whose fields have distinct IDs.
use frugal.Base.{
  ℕ, ◌^◌, ◌<◌, ◌≡◌, ◌≢◌, refl, sym, ap, ◌∙◌, arith, Bool, ◌==◌, if◌then◌else◌, ==_self, ==_ne,
}
use frugal.Base.{List, [], ◌∷◌, All, Option, none, some, ok, map}
use frugal.Desc.{Field, TField, StructDesc, tfield, from_defs_fields, get_field, max_field_id}
use frugal.Desc.Lookup.{last_with, get_field-last_with, id-le-max_field_id}

-- No two fields have one ID.
abbrev pub Distinct : List TField → Type 0
Distinct [] = Unit
Distinct (f ∷ fs) = All (λ g. f.id ≢ g.id) fs × Distinct fs

-- Every field has a 16-bit ID, and GetField finds it by that.
pub record IsTable (d : StructDesc) : Type 0 where
  pub ids : All (λ f. f.id < 2 ^ 16) d.fields
  pub lookups : All (λ f. get_field d f.id ≡ ok (some f)) d.fields

pub All-map {ℓ} :
    {A : Type ℓ} {P Q : A → Type 0} (xs : List A) → ((x : A) → P x → Q x) → All P xs → All Q xs
All-map [] h p = tt
All-map (x ∷ xs) h (p, ps) = (h x p, All-map xs h ps)

last_with-absent :
    (fs : List TField) (fid : ℕ) (acc : Option TField)
    → All (λ g. fid ≢ g.id) fs
    → last_with fid fs acc ≡ acc
unfolding last_with
last_with-absent [] fid acc h = refl
last_with-absent (f ∷ fs) fid acc (n, h) =
    rw (==_ne f.id fid (λ e. n (sym e))) (last_with-absent fs fid acc h)

last_with-Distinct :
    (fs : List TField)
    → Distinct fs
    → All (λ f. (acc : Option TField) → last_with f.id fs acc ≡ some f) fs
unfolding last_with
last_with-Distinct [] h = tt
last_with-Distinct (f ∷ fs) (n, h) = (
  λ acc. rw (last_with, ==_self f.id) (last_with-absent fs f.id (some f) n),
  All-map fs (λ g q acc. q (if f.id == g.id then some f else acc)) (last_with-Distinct fs h),
)

-- The table of a descriptor that fromDefsFields builds from fields whose IDs are below 65535 and
-- distinct finds every field by its ID.
pub from_defs_fields-IsTable :
    (init_func unknown : Bool) (ff : List Field) {d : StructDesc}
    → max_field_id 0 ff < 65535
    → Distinct (map tfield ff)
    → from_defs_fields init_func unknown ff ≡ ok d
    → IsTable d
from_defs_fields-IsTable init_func unknown ff {d} lt distinct h =
    let (q, finds) = get_field-last_with init_func unknown ff lt h in
    record {
      ids = rw q (small ff lt);
      lookups =
          All-map d.fields (λ f e. finds f.id ∙ ap ok (e none))
            (last_with-Distinct d.fields (rw q distinct));
    }
  where
    small : (ff : List Field) → max_field_id 0 ff < 65535 → All (λ f. f.id < 2 ^ 16) (map tfield ff)
    small ff lt = All-map (map tfield ff) (λ f le. omega (arith, le, lt)) (id-le-max_field_id ff 0)
