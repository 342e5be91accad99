-- ===== src/Resolve/Ids.antt =====
-- What the resolver guarantees of the fields that it returns, and of the descriptor made of them.
use frugal.Base.{
  ℕ, ◌^◌, ◌<◌, ◌≡◌, ◌≢◌, ◌⊎◌, inl, inr, refl, sym, ap, ◌∙◌, arith, Bool, true, false, ◌&&◌, ◌||◌,
  Option-cases, List, [], ◌∷◌, Option, none, some, map, All,
}
use frugal.Base.{
  eq_or_ne, panic, invalid_field_number, duplicated_field_id, ok, err, ◌>>=◌, map_err, ltb, ◌==◌,
  ==_self, if◌then◌else◌, Ensures, Ensures-bind, Ensures-ok, Ensures-if,
}
use mathlib.Core.Bool.{not}
use frugal.Wire.{Buf}
use frugal.Child.{bytes_eq}
use frugal.Types.{DefType, is_value_type, tag}
use frugal.Desc.{Field, StructDesc, is_optional, is_string, tfield, max_field_id, from_defs_fields}
use frugal.Desc.Lookup.{from_defs_fields-max_id}
use frugal.Desc.Table.{Distinct, IsTable, All-map, from_defs_fields-IsTable}
use frugal.Parse.{parse_type}
use frugal.Resolve.{
  StructField, Defaults, parse_uint16, digits, has_id, requiredness, scan_options, described_field,
  tagged_field, resolve_field, resolve_fields, do_resolve_fields, lookup_struct_tag,
}
use frugal.Resolve.Order.{IsAscending, AreApart, sort-All, sort-IsAscending}

not-false : (b : Bool) → not b ≡ false → b ≡ true
not-false true h = refl
not-false false h = cc

-- A field that may go into a descriptor.
pub record IsAllowed (f : Field) : Type 0 where
  pub small : f.id < 2 ^ 16
  pub pointers : (is_optional f.spec ≡ true) ⊎ (is_value_type f.type ≡ true)
  pub copies : f.nocopy ≡ true → is_string (tag f.type) ≡ true

abbrev IsNew : List ℕ → Field → Type 0
IsNew ids f = All (λ j. f.id ≢ j) ids

has_id-All : (ids : List ℕ) (id : ℕ) → has_id ids id ≡ false → All (λ j. id ≢ j) ids
unfolding has_id
has_id-All [] id h = tt
has_id-All (j ∷ ids) id h = (
  (λ e. absurd (true_ne (sym (ap (λ b. b || has_id ids id) (same e)) ∙ h))),
  has_id-All ids id (second (id == j) (has_id ids id) h),
)
  where
    true_ne : true ≡ false → ⊥
    true_ne q = cc

    same : id ≡ j → (id == j) ≡ true
    same e = rw e (==_self j)

    second : (a b : Bool) → (a || b) ≡ false → b ≡ false
    second true b q = cc
    second false b q = q

parse_uint16-lt : (w : Buf) (id : ℕ) → parse_uint16 w ≡ some id → id < 2 ^ 16
unfolding parse_uint16
parse_uint16-lt [] id h = cc
parse_uint16-lt (c ∷ cs) id h = below_limit (digits (c ∷ cs) 0) h
  where
    below_limit :
        (o : Option ℕ)
        → (elim o [ none ↦ none | some n ↦ if ltb n (2 ^ 16) then some n else none ]) ≡ some id
        → id < 2 ^ 16
    below_limit none q = cc
    below_limit (some n) q = ground arith

scan_options-copies :
    (t : DefType) (ft : List Buf) (nocopy : Bool)
    → (nocopy ≡ true → is_string (tag t) ≡ true)
    → Ensures (λ c. c ≡ true → is_string (tag t) ≡ true) (scan_options t ft nocopy)
unfolding scan_options
scan_options-copies t [] nocopy h = h
scan_options-copies t (o ∷ ft) nocopy h =
    Ensures-if _ (not (bytes_eq o (110 ∷ 111 ∷ 99 ∷ 111 ∷ 112 ∷ 121 ∷ []))) _ _ (λ _. tt)
      λ _.
        Ensures-if _ (not (is_string (tag t))) _ _ (λ _. tt)
          λ q.
            Ensures-if _ nocopy _ _ (λ _. tt)
              λ _. scan_options-copies t ft true (λ _. not-false (is_string (tag t)) q)

abbrev Resolved : List ℕ → Field → Type 0
Resolved ids f = IsAllowed f × IsNew ids f

described_field-Resolved :
    (mem : Defaults) (sf : StructField) (id : ℕ) (ft : List Buf) (ids : List ℕ)
    → id < 2 ^ 16
    → has_id ids id ≡ false
    → Ensures (Resolved ids) (described_field mem sf id ft)
unfolding described_field
described_field-Resolved mem sf id ft ids lt new = Ensures-bind _ (requiredness _) _ λ rx _.
    Ensures-bind _ (map_err _ (parse_type sf.go_type _)) _ λ t _.
      Ensures-if _ (not (is_optional rx) && not (is_value_type t)) _ _ (λ _. tt)
        λ q. Ensures-bind _ (scan_options t _ false) _ λ nocopy e. (
          record {
            small = lt;
            pointers = allowed (is_optional rx) (is_value_type t) q;
            copies = Ensures-ok _ e (scan_options-copies t _ false (λ z. cc));
          },
          has_id-All ids id new,
        )
  where
    allowed : (a b : Bool) → (not a && not b) ≡ false → (a ≡ true) ⊎ (b ≡ true)
    allowed true b q = inl refl
    allowed false true q = inr refl
    allowed false false q = cc

tagged_field-Resolved :
    (mem : Defaults) (sf : StructField) (ft : List Buf) (ids : List ℕ)
    → Ensures (Resolved ids) (tagged_field mem sf ft ids)
unfolding tagged_field
tagged_field-Resolved mem sf [] ids = tt
tagged_field-Resolved mem sf (w ∷ ft) ids = with_id (parse_uint16 w) refl
  where
    with_id :
        (o : Option ℕ)
        → parse_uint16 w ≡ o
        → Ensures (Resolved ids) (elim o [
          | none ↦ err invalid_field_number
          | some id ↦
              if has_id ids id then err (duplicated_field_id id) else described_field mem sf id ft
        ])
    with_id none e = tt
    with_id (some id) e =
        Ensures-if _ (has_id ids id) _ _ (λ _. tt)
          λ new. described_field-Resolved mem sf id ft ids (parse_uint16-lt w id e) new

abbrev MayBeResolved : List ℕ → Option Field → Type 0
MayBeResolved ids none = Unit
MayBeResolved ids (some f) = Resolved ids f

resolve_field-Resolved :
    (mem : Defaults) (sf : StructField) (ids : List ℕ)
    → Ensures (MayBeResolved ids) (resolve_field mem sf ids)
unfolding resolve_field
resolve_field-Resolved mem sf ids =
    Ensures-if _ (sf.anonymous || sf.private) _ _ (λ _. tt)
      λ _. elim (Option-cases (lookup_struct_tag sf)) [
        | inl e ↦ rw e tt
        | inr (ft, e) ↦ rw e (
            Ensures-bind _ (tagged_field mem sf ft ids) _
              λ f q. Ensures-ok (Resolved ids) q (tagged_field-Resolved mem sf ft ids))
      ]

abbrev AreResolved : List ℕ → List Field → Type 0
AreResolved ids fs = AreApart fs × All (Resolved ids) fs

resolve_fields-AreResolved :
    (mem : Defaults) (sfs : List StructField) (ids : List ℕ)
    → Ensures (AreResolved ids) (resolve_fields mem sfs ids)
unfolding resolve_fields
resolve_fields-AreResolved mem [] ids = (tt, tt)
resolve_fields-AreResolved mem (sf ∷ sfs) ids = Ensures-bind _ (resolve_field mem sf ids) _ λ o e.
    with_field (λ js. resolve_fields-AreResolved mem sfs js) o
      (Ensures-ok (MayBeResolved ids) e (resolve_field-Resolved mem sf ids))
  where
    with_field :
        ((js : List ℕ) → Ensures (AreResolved js) (resolve_fields mem sfs js))
        → (o : Option Field) → MayBeResolved ids o
        → Ensures (AreResolved ids) (elim o [
          | none ↦ resolve_fields mem sfs ids
          | some f ↦ resolve_fields mem sfs (f.id ∷ ids) >>= λ fs. ok (f ∷ fs)
        ])
    with_field rest none h = rest ids
    with_field rest (some f) h = Ensures-bind _ (resolve_fields mem sfs (f.id ∷ ids)) _ λ fs e.
        let (apart, all) = Ensures-ok (AreResolved (f.id ∷ ids)) e (rest (f.id ∷ ids)) in
        (
          (All-map fs (λ g (_, (n, _)). n) all, apart),
          (h, All-map fs (λ g (ok_g, (_, n)). (ok_g, n)) all),
        )

-- Every list of fields that DoResolveFields returns is in the order of the IDs, no ID comes twice,
-- and each field is allowed: its ID has 16 bits, a pointer to anything but a struct is optional, and
-- nocopy stands on strings and binaries only.
pub do_resolve_fields-IsAscending :
    (mem : Defaults) (sfs : List StructField) {ff : List Field}
    → do_resolve_fields mem sfs ≡ ok ff
    → IsAscending ff × All IsAllowed ff
do_resolve_fields-IsAscending mem sfs h =
    Ensures-ok (λ ff. IsAscending ff × All IsAllowed ff) h resolved
  where
    resolved : Ensures (λ ff. IsAscending ff × All IsAllowed ff) (do_resolve_fields mem sfs)
    resolved =
        unfold do_resolve_fields in
        Ensures-bind _ (resolve_fields mem sfs []) _ λ fs e.
          let (apart, all) =
            Ensures-ok (AreResolved []) e (resolve_fields-AreResolved mem sfs []) in
          (sort-IsAscending fs apart, sort-All IsAllowed fs (All-map fs (λ g (q, _). q) all))

All-tfield :
    (P : ℕ → Type 0) (ff : List Field) → All (λ g. P g.id) ff → All (λ g. P g.id) (map tfield ff)
unfolding tfield
All-tfield P [] h = tt
All-tfield P (f ∷ ff) (p, ps) = (p, All-tfield P ff ps)

ascending-Distinct : (ff : List Field) → IsAscending ff → Distinct (map tfield ff)
unfolding tfield
ascending-Distinct [] h = tt
ascending-Distinct (f ∷ ff) (lt, h) = (
  All-tfield (λ j. f.id ≢ j) ff (All-map ff (λ g q e. absurd (omega (arith, q, e))) lt),
  ascending-Distinct ff h,
)

max_field_id-lt :
    (ff : List Field) (m : ℕ) → m < 2 ^ 16 → All IsAllowed ff → max_field_id m ff < 2 ^ 16
unfolding max_field_id
max_field_id-lt [] m h a = h
max_field_id-lt (f ∷ ff) m h (a, rest) = max_field_id-lt ff _ (greater (ltb m f.id)) rest
  where
    greater : (c : Bool) → (if c then f.id else m) < 2 ^ 16
    greater true = a.small
    greater false = h

max_field_id-built :
    (init_func unknown : Bool) (ff : List Field) {d : StructDesc}
    → All IsAllowed ff
    → from_defs_fields init_func unknown ff ≡ ok d
    → max_field_id 0 ff < 65535
max_field_id-built init_func unknown ff a e = elim (eq_or_ne (max_field_id 0 ff) 65535) [
  | inl q ↦ absurd (panic_ne (sym (from_defs_fields-max_id init_func unknown ff q) ∙ e))
  | inr n ↦ omega (arith, n, max_field_id-lt ff 0 (omega arith) a)
]
  where
    panic_ne : {d : StructDesc} → panic ≡ ok d → ⊥
    panic_ne q = cc

-- Where the fields that DoResolveFields returns are made into a descriptor, its table finds every
-- field by its ID.
pub do_resolve_fields-IsTable :
    (mem : Defaults) (sfs : List StructField) (init_func unknown : Bool) {ff : List Field}
    {d : StructDesc}
    → do_resolve_fields mem sfs ≡ ok ff
    → from_defs_fields init_func unknown ff ≡ ok d
    → IsTable d
do_resolve_fields-IsTable mem sfs init_func unknown {ff} h e =
    let (asc, allowed) = do_resolve_fields-IsAscending mem sfs h in
    from_defs_fields-IsTable init_func unknown ff
      (max_field_id-built init_func unknown ff allowed e) (ascending-Distinct ff asc) e
