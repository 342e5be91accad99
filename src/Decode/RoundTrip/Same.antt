-- ===== src/Decode/RoundTrip/Same.antt =====
-- The values that come back from their trip as they were.
use frugal.Base.{
  ℕ, zero, suc, ◌≡◌, ◌⊎◌, inl, inr, refl, ap, ◌∙◌, true, List, [], ◌∷◌, Option, none, some,
  get_elem?,
}
use frugal.Wire.{Buf}
use frugal.Types.{DefType, ttype_of, elem_type, key_type}
use frugal.Value.{
  Val, Vals, Entries, num, str, nil, slice, go_map, struct, ptr, end, item, no_entries, entry,
}
use frugal.Codec.{struct_of}
use frugal.Desc.{TField, StructDesc}
use frugal.Spec.{is_omitted}
use frugal.Decode.Runtime.{Runtime}
use frugal.Decode.Unknown.{kept_unknowns}
use frugal.Decode.Result.{
  Place, patch, patch_field, fill, new_struct, read_back, decoded, decoded_elems, decoded_entries,
  places,
}

-- A struct's children, each becoming itself.
unfoldable pub originals : Vals → List Place
originals end = []
originals (item v vs) = (v, λ t. v) ∷ originals vs

-- A child with when it is kept at a type.
abbrev pub Keep : Type 1
Keep = Val × (DefType → Type 0)

abbrev pub FieldKept : TField → Option Keep → Type 0
FieldKept f none = Unit
FieldKept f (some (v, P)) = (is_omitted f v ≡ true) ⊎ P f.type

abbrev pub FieldsKept : List TField → List Keep → Type 0
FieldsKept [] ks = Unit
FieldsKept (f ∷ fs) ks = FieldKept f (get_elem? ks f.offset) × FieldsKept fs ks

module _ (rt : Runtime) (ds : ℕ → StructDesc) where
  abbrev StructKept : Option ℕ → Vals → Buf → List Keep → Type 0
  StructKept none vs xb ks = ⊥
  StructKept (some s) vs xb ks =
      FieldsKept (ds s).fields ks
      × (fill (ds s) (originals vs) xb (new_struct rt ds s) ≡ struct vs xb)

  -- Enums are 32-bit integers, there are no nils but in fields that are left out, and what is left
  -- out of a struct is in a new struct as well.
  abbrev mutual
    pub IsKept : Val → DefType → Type 0
    IsKept (num n) t = read_back (ttype_of t) n ≡ n
    IsKept (str s) t = Unit
    IsKept nil t = ⊥
    IsKept (slice vs) t = AllKept vs (elem_type t)
    IsKept (go_map n es) t = EntriesKept es (key_type t) (elem_type t)
    IsKept (struct vs xb) t = StructKept (struct_of t) vs xb (keeps vs)
    IsKept (ptr w) t = IsKept w (elem_type t)

    pub keeps : Vals → List Keep
    keeps end = []
    keeps (item v vs) = (v, IsKept v) ∷ keeps vs

    pub AllKept : Vals → DefType → Type 0
    AllKept end t = Unit
    AllKept (item v vs) t = IsKept v t × AllKept vs t

    pub EntriesKept : Entries → DefType → DefType → Type 0
    EntriesKept no_entries kt vt = Unit
    EntriesKept (entry k v es) kt vt = IsKept k kt × IsKept v vt × EntriesKept es kt vt

  patch-kept :
      (vs : Vals)
      → ((f : TField) (ws : Vals)
          → FieldKept f (get_elem? (keeps vs) f.offset)
          → patch_field f (get_elem? (places rt ds vs) f.offset) ws
            ≡ patch_field f (get_elem? (originals vs) f.offset) ws)
      → (fs : List TField) (ws : Vals) → FieldsKept fs (keeps vs)
      → patch fs (places rt ds vs) ws ≡ patch fs (originals vs) ws
  unfolding patch
  patch-kept vs ih [] ws h = refl
  patch-kept vs ih (f ∷ fs) ws (h, hs) =
      ap (λ z. patch fs (places rt ds vs) z) (ih f ws h) ∙ patch-kept vs ih fs _ hs

  fill-kept :
      (sd : StructDesc) (vs : Vals) (xb : Buf) (v : Val)
      → ((ws : Vals) → patch sd.fields (places rt ds vs) ws ≡ patch sd.fields (originals vs) ws)
      → fill sd (places rt ds vs) xb v ≡ fill sd (originals vs) xb v
  unfolding fill
  fill-kept sd vs xb (struct ws yb) h = ap (λ z. struct z (kept_unknowns xb yb)) (h ws)
  fill-kept sd vs xb (num n) h = refl
  fill-kept sd vs xb (str s) h = refl
  fill-kept sd vs xb nil h = refl
  fill-kept sd vs xb (slice us) h = refl
  fill-kept sd vs xb (go_map n es) h = refl
  fill-kept sd vs xb (ptr w) h = refl

  struct-kept :
      (o : Option ℕ) (vs : Vals) (xb : Buf)
      → ((s : ℕ) (ws : Vals)
          → FieldsKept (ds s).fields (keeps vs)
          → patch (ds s).fields (places rt ds vs) ws ≡ patch (ds s).fields (originals vs) ws)
      → StructKept o vs xb (keeps vs)
      → (elim o [ none ↦ nil | some s ↦ fill (ds s) (places rt ds vs) xb (new_struct rt ds s) ])
        ≡ struct vs xb
  struct-kept none vs xb ih h = absurd h
  struct-kept (some s) vs xb ih (h, e) =
      fill-kept (ds s) vs xb (new_struct rt ds s) (λ ws. ih s ws h) ∙ e

  field-kept :
      (v : Val) (f : TField) (ws : Vals)
      → (IsKept v f.type → decoded rt ds v f.type ≡ v)
      → FieldKept f (some (v, IsKept v))
      → patch_field f (some (v, decoded rt ds v)) ws ≡ patch_field f (some (v, λ t. v)) ws
  unfolding patch_field
  field-kept v f ws ih (inl om) = rw (om) refl
  field-kept v f ws ih (inr h) = rw (ih h) refl

  mutual
    unfolding decoded originals

    pub decoded-same : (v : Val) (t : DefType) → IsKept v t → decoded rt ds v t ≡ v
    decoded-same (num n) t h = ap (λ k. num k) h
    decoded-same (str s) t h = refl
    decoded-same nil t h = absurd h
    decoded-same (slice vs) t h = ap (λ z. slice z) (elems-same vs (elem_type t) h)
    decoded-same (go_map n es) t h =
        ap (λ z. go_map n z) (entries-same es (key_type t) (elem_type t) h)
    decoded-same (struct vs xb) t h =
        struct-kept (struct_of t) vs xb
          (λ s ws k. patch-kept vs (λ f us q. field-same vs f.offset f us q) (ds s).fields ws k) h
    decoded-same (ptr w) t h = ap (λ z. ptr z) (decoded-same w (elem_type t) h)

    pub field-same :
        (vs : Vals) (i : ℕ) (f : TField) (ws : Vals)
        → FieldKept f (get_elem? (keeps vs) i)
        → patch_field f (get_elem? (places rt ds vs) i) ws
          ≡ patch_field f (get_elem? (originals vs) i) ws
    field-same end i f ws h = refl
    field-same (item v vs) zero f ws h = field-kept v f ws (λ q. decoded-same v f.type q) h
    field-same (item v vs) (suc i) f ws h = field-same vs i f ws h

    elems-same : (vs : Vals) (t : DefType) → AllKept vs t → decoded_elems rt ds vs t ≡ vs
    elems-same end t h = refl
    elems-same (item v vs) t (hv, h) = rw (decoded-same v t hv, elems-same vs t h) refl

    entries-same :
        (es : Entries) (kt vt : DefType)
        → EntriesKept es kt vt
        → decoded_entries rt ds es kt vt ≡ es
    entries-same no_entries kt vt h = refl
    entries-same (entry k v es) kt vt (hk, hv, h) =
        rw (decoded-same k kt hk, decoded-same v vt hv, entries-same es kt vt h) refl
