-- ===== src/Decode/Tells.antt =====
-- Which errors of the calls inside tDecoder.Decode (internal/reflect/decoder.go) are that a required
-- field of the struct itself is not set: none, since the errors of fields are wrapped.
use frugal.Base.{
  ℕ, zero, suc, ◌+◌, ◌^◌, ◌<◌, ◌≡◌, inl, inr, refl, ◌∙◌, Bool, true, false, if◌then◌else◌, List, [],
  ◌∷◌, All,
}
use frugal.Base.{Option, none, some, Outcome, ok, err, panic, fault, stuck, ◌>>=◌, Bool-cases}
use frugal.Base.{required_field_not_set, drop, get_elem?, map_err, field_err, skip_field_err}
use frugal.Base.{Error, ltb, arith}
use frugal.Wire.{Buf, read_byte, read_uint16}
use frugal.Desc.{TField, StructDesc, get_field}
use frugal.UnknownFields.{UnknownFields, Idx, copy, copy_loop, copy_at, slice_of}
use frugal.Decode.Runtime.{slice_from}

-- A property of the value of a call, and of the ID of a required field that is not set.
abbrev pub Tells {ℓ} : {A : Type ℓ} → (A → Type 0) → (ℕ → Type 0) → Outcome A → Type 0
Tells P Q (ok a) = P a
Tells P Q (err (required_field_not_set fid)) = Q fid
Tells P Q _ = Unit

abbrev pub Never : ℕ → Type 0
Never fid = ⊥

abbrev pub Always {ℓ} : {A : Type ℓ} → A → Type 0
Always a = Unit

pub Tells-bind {ℓ κ} :
    {A : Type ℓ} {B : Type κ} (R : A → Type 0) (P : B → Type 0) (Q : ℕ → Type 0) (m : Outcome A)
    (f : A → Outcome B)
    → Tells R Never m
    → ((a : A) → m ≡ ok a → R a → Tells P Q (f a))
    → Tells P Q (m >>= f)
Tells-bind R P Q (ok a) f q h = h a refl q
Tells-bind R P Q (err (required_field_not_set fid)) f q h = absurd q
Tells-bind R P Q (err e) f q h = tt
Tells-bind R P Q panic f q h = tt
Tells-bind R P Q fault f q h = tt
Tells-bind R P Q stuck f q h = tt

-- An error that is wrapped with its field is none of this struct.
pub Tells-field_err {ℓ} :
    {A : Type ℓ} (fid : ℕ) (m : Outcome A) → Tells Always Never (map_err (field_err fid) m)
Tells-field_err fid (ok a) = tt
Tells-field_err fid (err e) = tt
Tells-field_err fid panic = tt
Tells-field_err fid fault = tt
Tells-field_err fid stuck = tt

pub Tells-skip_field_err {ℓ} :
    {A : Type ℓ} (fid : ℕ) (m : Outcome A) → Tells Always Never (map_err (skip_field_err fid) m)
Tells-skip_field_err fid (ok a) = tt
Tells-skip_field_err fid (err e) = tt
Tells-skip_field_err fid panic = tt
Tells-skip_field_err fid fault = tt
Tells-skip_field_err fid stuck = tt

pub map_err-ok {ℓ} :
    {A : Type ℓ} (g : Error → Error) (m : Outcome A) {a : A} → map_err g m ≡ ok a → m ≡ ok a
map_err-ok g (ok x) h = h
map_err-ok g (err e) h = cc
map_err-ok g panic h = cc
map_err-ok g fault h = cc
map_err-ok g stuck h = cc

pub Tells-weaken {ℓ} :
    {A : Type ℓ} (R P : A → Type 0) (m : Outcome A)
    → Tells R Never m
    → ((a : A) → R a → P a)
    → Tells P Never m
Tells-weaken R P (ok a) q h = h a q
Tells-weaken R P (err (required_field_not_set fid)) q h = q
Tells-weaken R P (err e) q h = tt
Tells-weaken R P panic q h = tt
Tells-weaken R P fault q h = tt
Tells-weaken R P stuck q h = tt

pub read_byte-Tells : (b : Buf) → Tells Always Never (read_byte b)
unfolding read_byte
read_byte-Tells [] = tt
read_byte-Tells (x ∷ b) = tt

pub read_uint16-Tells : (b : Buf) → Tells Always Never (read_uint16 b)
unfolding read_uint16
read_uint16-Tells (x ∷ y ∷ b) = tt
read_uint16-Tells _ = tt

pub slice_from-Tells : (b : Buf) (n : ℕ) → Tells (λ b'. b' ≡ drop n b) Never (slice_from b n)
unfolding slice_from
slice_from-Tells b n = ground arith

pub Tells-if {ℓ} :
    {A : Type ℓ} (P : A → Type 0) (Q : ℕ → Type 0) (c : Bool) (x y : Outcome A)
    → Tells P Q x
    → Tells P Q y
    → Tells P Q (if c then x else y)
Tells-if P Q true x y h k = h
Tells-if P Q false x y h k = k

copy_loop-Tells :
    (b : Buf) (xs : List Idx) (off : ℕ) (ret : Buf) → Tells Always Never (copy_loop b xs off ret)
unfolding copy_loop
copy_loop-Tells b [] off ret = tt
copy_loop-Tells b (x ∷ xs) off ret =
    Tells-bind Always Always Never (slice_of b x.off x.sz) _ (slice_of-Tells x) λ src _ _.
      Tells-bind Always Always Never (copy_at ret off src) _ (copy_at-Tells src)
        λ ret' _ _. copy_loop-Tells b xs (off + x.sz) ret'
  where
    slice_of-Tells : (x : Idx) → Tells Always Never (slice_of b x.off x.sz)
    slice_of-Tells x = unfold slice_of in ground arith

    copy_at-Tells : (src : Buf) → Tells Always Never (copy_at ret off src)
    copy_at-Tells src = unfold copy_at in ground arith

pub copy-Tells : (p : UnknownFields) (mem b : Buf) → Tells Always Never (copy p mem b)
unfolding copy
copy-Tells p mem b = copy_loop-Tells b p.offs 0 mem

some_small : {f g : TField} → some g ≡ some f → g.id < 2 ^ 16 → f.id < 2 ^ 16
some_small {f} {g} e h = let q : g ≡ f = cc e in rw q at h

-- GetField returns fields of the descriptor.
All-get_elem? :
    (fs : List TField) (k : ℕ) {f : TField}
    → All (λ g. g.id < 2 ^ 16) fs
    → get_elem? fs k ≡ some f
    → f.id < 2 ^ 16
All-get_elem? [] k h e = cc
All-get_elem? (g ∷ fs) zero (h, hs) e = some_small e h
All-get_elem? (g ∷ fs) (suc k) (h, hs) e = All-get_elem? fs k hs e

pub get_field-small :
    (sd : StructDesc) (fid : ℕ) (f : TField)
    → All (λ g. g.id < 2 ^ 16) sd.fields
    → get_field sd fid ≡ ok (some f)
    → f.id < 2 ^ 16
unfolding get_field
get_field-small sd fid f h e = elim (Bool-cases (ltb sd.max_id fid)) [
  | inl l ↦ absurd (no_field (rw l at e))
  | inr l ↦ at_index (get_elem? sd.field_idx fid) (rw l at e)
]
  where
    no_field : ok none ≡ ok (some f) → ⊥
    no_field q = cc

    at_field :
        (k : ℕ) (o : Option TField)
        → get_elem? sd.fields k ≡ o
        → (elim o [ none ↦ panic | some g ↦ ok (some g) ]) ≡ ok (some f)
        → f.id < 2 ^ 16
    at_field k none q r = cc
    at_field k (some g) q r = let e : some g ≡ some f = cc r in All-get_elem? sd.fields k h (q ∙ e)

    at_index :
        (o : Option (Option ℕ))
        → (elim o [
          | none ↦ panic
          | some none ↦ ok none
          | some (some i) ↦ elim (get_elem? sd.fields i) [ none ↦ panic | some g ↦ ok (some g) ]
        ])
          ≡ ok (some f)
        → f.id < 2 ^ 16
    at_index none q = cc
    at_index (some none) q = cc
    at_index (some (some i)) q = at_field i (get_elem? sd.fields i) refl q

pub get_field-Tells : (sd : StructDesc) (fid : ℕ) → Tells Always Never (get_field sd fid)
unfolding get_field
get_field-Tells sd fid = ground arith
