-- ===== src/Desc/Lookup.antt =====
-- GetField on the descriptors that fromDefsFields builds, and the field ID at which the table of
-- fieldIdx is empty.
use frugal.Base.{
  All, le→not_ltb, ℕ, zero, suc, ◌+◌, ◌%◌, ◌^◌, ◌≤◌, ◌<◌, ◌≡◌, ◌≢◌, ◌⊎◌, ◌&&◌, refl, sym, ap, ◌∙◌,
  arith, Bool, true, false, ◌==◌,
}
use frugal.Base.{
  List, [], ◌∷◌, Option, none, some, ok, panic, replicate, length, get_elem?, map, ltb,
  if◌then◌else◌,
}
use frugal.Base.{
  Ensures, Ensures-bind, Ensures-ok, Bool-cases, eq_or_ne, ==_self, ==_ne, inl, inr,
  get_elem?-set_self, get_elem?-set_ne, set,
}
use mathlib.Core.Path.{ap₂}
use mathlib.Core.Bool.{not}
use frugal.Types.{tag}
use frugal.Desc.{
  Field, TField, StructDesc, tfield, new_ttype_panics, from_defs_field, set_index, is_string,
}
use frugal.Desc.{fill_fields, from_defs_fields, max_field_id, get_field}

-- The last field with an ID, or `acc`.
unfoldable pub last_with : ℕ → List TField → Option TField → Option TField
last_with fid [] acc = acc
last_with fid (f ∷ fs) acc = last_with fid fs (if f.id == fid then some f else acc)

last_index : ℕ → List TField → ℕ → Option ℕ → Option ℕ
last_index i [] fid o = o
last_index i (f ∷ fs) fid o = last_index (suc i) fs fid (if f.id == fid then some i else o)

-- An index of fieldIdx and the field it stands for.
PointsTo : List TField → Option ℕ → Option TField → Type 0
PointsTo fs none none = Unit
PointsTo fs (some k) (some f) = get_elem? fs k ≡ some f
PointsTo fs _ _ = ⊥

from_defs_field-tfield : (x : Field) {f : TField} → from_defs_field x ≡ ok f → f ≡ tfield x
unfolding from_defs_field
from_defs_field-tfield x h = ground arith

set_index-set :
    (xs : List (Option ℕ)) (i : ℕ) (v : Option ℕ) {ys : List (Option ℕ)}
    → set_index xs i v ≡ ok ys
    → (i < length xs) × (ys ≡ set xs i v)
unfolding set_index
set_index-set xs i v h = (ground arith, ground arith)

set_index-get :
    (idx : List (Option ℕ)) (j i fid : ℕ) (o : Option ℕ) {out : List (Option ℕ)}
    → set_index idx j (some i) ≡ ok out
    → get_elem? idx fid ≡ some o
    → get_elem? out fid ≡ some (if j == fid then some i else o)
set_index-get idx j i fid o {out} h g =
    let (lt, e) = set_index-set idx j (some i) h in
    elim (eq_or_ne j fid) [
      | inl q ↦ rw (e, q, ==_self fid) (get_elem?-set_self idx fid (some i) (rw q at lt))
      | inr n ↦ rw (e, ==_ne j fid n) (get_elem?-set_ne idx j fid (some i) n ∙ g)
    ]

-- The fields and the table that fill_fields makes: at every ID, the last of their indices.
abbrev Filled : ℕ → List Field → List (Option ℕ) → List TField × List (Option ℕ) → Type 0
Filled i ff idx r =
    (r.0 ≡ map tfield ff)
    × ((fid : ℕ) (o : Option ℕ)
        → get_elem? idx fid ≡ some o
        → get_elem? r.1 fid ≡ some (last_index i r.0 fid o))

fill_fields-Filled :
    (ff : List Field) (i : ℕ) (idx : List (Option ℕ))
    → Ensures (Filled i ff idx) (fill_fields i ff idx)
unfolding fill_fields last_index
fill_fields-Filled [] i idx = (refl, λ fid o g. g)
fill_fields-Filled (x ∷ ff) i idx =
    Ensures-bind (Filled i (x ∷ ff) idx) (from_defs_field x) _ λ f ef.
      Ensures-bind (Filled i (x ∷ ff) idx) (set_index idx f.id (some i)) _ λ idx' ei.
        Ensures-bind (Filled i (x ∷ ff) idx) (fill_fields (suc i) ff idx') _ λ r er.
          let (fs, lookups) =
            Ensures-ok (Filled (suc i) ff idx') er (fill_fields-Filled ff (suc i) idx') in
          (
            ap₂ (λ y ys. y ∷ ys) (from_defs_field-tfield x ef) fs,
            λ fid o g.
                lookups fid (if f.id == fid then some i else o)
                  (set_index-get idx f.id i fid o ei g),
          )

-- The last index of an ID is that of the last field with it.
last_index-last_with :
    (fs all : List TField) (i fid : ℕ) (o : Option ℕ) (acc : Option TField)
    → ((k : ℕ) → get_elem? fs k ≡ get_elem? all (i + k))
    → PointsTo all o acc
    → PointsTo all (last_index i fs fid o) (last_with fid fs acc)
unfolding last_index last_with PointsTo
last_index-last_with [] all i fid o acc h p = p
last_index-last_with (f ∷ fs) all i fid o acc h p =
    last_index-last_with fs all (suc i) fid (if f.id == fid then some i else o)
      (if f.id == fid then some f else acc) (λ k. h (suc k) ∙ ap (get_elem? all) (omega arith))
      (elim (Bool-cases (f.id == fid)) [
        | inl e ↦ rw e (sym (h 0 ∙ ap (get_elem? all) (omega arith)))
        | inr e ↦ rw e p
      ])

larger : (m n : ℕ) → (m ≤ (if ltb m n then n else m)) × (n ≤ (if ltb m n then n else m))
larger m n = (ground arith, ground arith)

max_field_id-le : (ff : List Field) (m : ℕ) → m ≤ max_field_id m ff
unfolding max_field_id
max_field_id-le [] m = omega arith
max_field_id-le (f ∷ ff) m =
    omega (arith, larger m f.id, max_field_id-le ff (if ltb m f.id then f.id else m))

pub id-le-max_field_id :
    (ff : List Field) (m : ℕ) → All (λ f. f.id ≤ max_field_id m ff) (map tfield ff)
unfolding max_field_id tfield
id-le-max_field_id [] m = tt
id-le-max_field_id (f ∷ ff) m =
    let n = if ltb m f.id then f.id else m in
    (omega (arith, larger m f.id, max_field_id-le ff n), id-le-max_field_id ff n)

-- No field has an ID above maxFieldID.
last_with-above :
    (ff : List Field) (m fid : ℕ)
    → max_field_id m ff < fid
    → last_with fid (map tfield ff) none ≡ none
unfolding max_field_id last_with tfield
last_with-above [] m fid h = refl
last_with-above (f ∷ ff) m fid h =
    let n = if ltb m f.id then f.id else m in
    let ne : f.id ≢ fid = λ e. absurd (omega (arith, h, e, larger m f.id, max_field_id-le ff n)) in
    rw (last_with, ==_ne f.id fid ne) (last_with-above ff n fid h)

get_elem?-replicate : (n i : ℕ) (v : Option ℕ) → i < n → get_elem? (replicate n v) i ≡ some v
get_elem?-replicate zero i v h = absurd (omega arith)
get_elem?-replicate (suc n) zero v h = refl
get_elem?-replicate (suc n) (suc i) v h = get_elem?-replicate n i v (omega arith)

-- GetField, where the table holds the index o of the field acc, or neither.
get_field-PointsTo :
    (d : StructDesc) (fid : ℕ) (o : Option ℕ) (acc : Option TField)
    → fid ≤ d.max_id
    → get_elem? d.field_idx fid ≡ some o
    → PointsTo d.fields o acc
    → get_field d fid ≡ ok acc
unfolding get_field PointsTo
get_field-PointsTo d fid none none h g p = rw (le→not_ltb fid d.max_id h, g)
get_field-PointsTo d fid (some k) (some f) h g p = rw (le→not_ltb fid d.max_id h, g, p)
get_field-PointsTo d fid none (some f) h g p = elim p [ ]
get_field-PointsTo d fid (some k) none h g p = elim p [ ]

get_field-above : (d : StructDesc) (fid : ℕ) → ltb d.max_id fid ≡ true → get_field d fid ≡ ok none
unfolding get_field
get_field-above d fid h = rw h

abbrev Serves : List Field → StructDesc → Type 0
Serves ff d =
    (d.fields ≡ map tfield ff) × ((fid : ℕ) → get_field d fid ≡ ok (last_with fid d.fields none))

from_defs_fields-Serves :
    (init_func unknown : Bool) (ff : List Field)
    → max_field_id 0 ff < 65535
    → Ensures (Serves ff) (from_defs_fields init_func unknown ff)
unfolding from_defs_fields
from_defs_fields-Serves init_func unknown ff lt = rw size (
    Ensures-bind (Serves ff) (fill_fields 0 ff idx) _ λ (fs, out) e.
      let (q, lookups) = Ensures-ok (Filled 0 ff idx) e (fill_fields-Filled ff 0 idx) in
      (
        q,
        λ fid. elim (Bool-cases (ltb (max_field_id 0 ff) fid)) [
          | inl a ↦
              get_field-above _ fid a
              ∙ ap ok (
                  sym (
                    ap (λ gs. last_with fid gs none) q
                    ∙ last_with-above ff 0 fid (above (max_field_id 0 ff) fid a)))
          | inr b ↦
              get_field-PointsTo _ fid (last_index 0 fs fid none) (last_with fid fs none)
                (not_above (max_field_id 0 ff) fid b)
                (lookups fid none (
                  get_elem?-replicate (max_field_id 0 ff + 1) fid none
                    (omega (arith, not_above (max_field_id 0 ff) fid b))))
                (last_index-last_with fs fs 0 fid none none (λ k. ap (get_elem? fs) (omega arith))
                  (unfold PointsTo in tt))
        ],
      ))
  where
    above : (a b : ℕ) → ltb a b ≡ true → a < b
    above a b h = ground arith

    not_above : (a b : ℕ) → ltb a b ≡ false → b ≤ a
    not_above a b h = ground arith

    size : (max_field_id 0 ff + 1) % 2 ^ 16 ≡ max_field_id 0 ff + 1
    size = omega arith

    idx : List (Option ℕ)
    idx = replicate (max_field_id 0 ff + 1) none

-- A descriptor built from fields whose IDs are below 65535 has a field for every resolved field, in
-- their order, and GetField on it never panics: it returns the last field with the ID, or none if
-- there is no such field.
pub get_field-last_with :
    (init_func unknown : Bool) (ff : List Field) {d : StructDesc}
    → max_field_id 0 ff < 65535
    → from_defs_fields init_func unknown ff ≡ ok d
    → (d.fields ≡ map tfield ff) × ((fid : ℕ) → get_field d fid ≡ ok (last_with fid d.fields none))
get_field-last_with init_func unknown ff {d} lt h =
    Ensures-ok (Serves ff) h (from_defs_fields-Serves init_func unknown ff lt)

from_defs_field-cases :
    (x : Field) → (from_defs_field x ≡ panic) ⊎ (from_defs_field x ≡ ok (tfield x))
unfolding from_defs_field
from_defs_field-cases x = elim (Bool-cases (new_ttype_panics x.type)) [
  | inl e ↦ inl (rw e)
  | inr e ↦ elim (Bool-cases (x.nocopy && not (is_string (tag x.type)))) [
    | inl f ↦ inl (rw (e, f))
    | inr f ↦ inr (rw (e, f))
  ]
]

fill_fields-empty : (x : Field) (ff : List Field) (i : ℕ) → fill_fields i (x ∷ ff) [] ≡ panic
unfolding fill_fields set_index tfield
fill_fields-empty x ff i = elim (from_defs_field-cases x) [
  | inl e ↦ rw e
  | inr e ↦ rw (e, le→not_ltb 0 x.id (omega arith))
]

-- With the field ID 65535 in a struct no descriptor is built: `maxFieldID+1` wraps to 0 in uint16,
-- and the write to the empty fieldIdx panics.
pub from_defs_fields-max_id :
    (init_func unknown : Bool) (ff : List Field)
    → max_field_id 0 ff ≡ 65535
    → from_defs_fields init_func unknown ff ≡ panic
unfolding from_defs_fields max_field_id
from_defs_fields-max_id init_func unknown [] h = absurd (omega arith)
from_defs_fields-max_id init_func unknown (x ∷ ff) h = rw (h, fill_fields-empty x ff 0)
