-- ===== src/Prefetch/Keys.antt =====
-- Facts on the caches of internal/reflect/desc.go: which struct types a list holds, which a field's
-- type has, and how many of a list are not cached.
use frugal.Base.{
  ℕ, suc, ◌≤◌, ◌<◌, Bool, true, false, ◌||◌, ==_iff, ==_self, ◌≡◌, ◌⊎◌, inl, inr, refl, ap, sym,
  List, [], ◌∷◌, ◌++◌, length, arith, Bool-cases, if◌then◌else◌,
}
use frugal.Types.{
  DefType, t_struct, t_map, t_set, t_list, t_pointer, t_bool, t_i8, t_double, t_i16, t_i32, t_i64,
  t_string, t_enum, t_binary, ttype_of, is_enum, tag,
}
use frugal.Prefetch.{StructType, by_value, by_pointer, same_type, has_type, has_sub_types}

-- The struct types that a reader or a writer of a value of the type asks for their Sd.
unfoldable pub struct_types : DefType → List StructType
struct_types (t_map k v) = struct_types k ++ struct_types v
struct_types (t_set v) = struct_types v
struct_types (t_list v) = struct_types v
struct_types (t_struct s) = by_value s ∷ []
struct_types (t_pointer (t_struct s)) = by_pointer s ∷ []
struct_types (t_pointer (t_set v)) = struct_types v
struct_types (t_pointer (t_list v)) = struct_types v
struct_types _ = []

abbrev pub Has : List StructType → StructType → Type 0
Has ks k = has_type ks k ≡ true

pub or_true : (a b : Bool) → (a || b) ≡ true → (a ≡ true) ⊎ (b ≡ true)
or_true true b h = inl refl
or_true false b h = inr h

pub or_left : (a b : Bool) → a ≡ true → (a || b) ≡ true
or_left true b h = refl
or_left false b h = ground arith

pub or_right : (a b : Bool) → b ≡ true → (a || b) ≡ true
or_right true b h = refl
or_right false b h = h

pub same_type-eq : (j k : StructType) → same_type j k ≡ true → j ≡ k
unfolding same_type
same_type-eq (by_value a) (by_value b) h = ap by_value ((==_iff a b).0 h)
same_type-eq (by_pointer a) (by_pointer b) h = ap by_pointer ((==_iff a b).0 h)
same_type-eq (by_value a) (by_pointer b) h = ground arith
same_type-eq (by_pointer a) (by_value b) h = ground arith

pub same_type_self : (k : StructType) → same_type k k ≡ true
unfolding same_type
same_type_self (by_value a) = ==_self a
same_type_self (by_pointer a) = ==_self a

pub not_Has-nil : (k : StructType) → ¬ Has [] k
unfolding has_type
not_Has-nil k h = ground arith

pub Has-here : (k : StructType) (ks : List StructType) → Has (k ∷ ks) k
unfolding has_type
Has-here k ks = or_left (same_type k k) (has_type ks k) (same_type_self k)

pub Has-there : (j k : StructType) (ks : List StructType) → Has ks k → Has (j ∷ ks) k
unfolding has_type
Has-there j k ks h = or_right (same_type j k) (has_type ks k) h

pub Has-cases : (j k : StructType) (ks : List StructType) → Has (j ∷ ks) k → (j ≡ k) ⊎ Has ks k
unfolding has_type
Has-cases j k ks h = elim (or_true (same_type j k) (has_type ks k) h) [
  | inl e ↦ inl (same_type-eq j k e)
  | inr e ↦ inr e
]

pub Has-append_left : (js ks : List StructType) (k : StructType) → Has js k → Has (js ++ ks) k
unfolding has_type
Has-append_left [] ks k h = ground arith
Has-append_left (j ∷ js) ks k h = elim (Has-cases j k js h) [
  | inl e ↦ or_left (same_type j k) (has_type (js ++ ks) k) (rw e (same_type_self k))
  | inr e ↦ Has-there j k (js ++ ks) (Has-append_left js ks k e)
]

pub Has-append_right : (js ks : List StructType) (k : StructType) → Has ks k → Has (js ++ ks) k
Has-append_right [] ks k h = h
Has-append_right (j ∷ js) ks k h = Has-there j k (js ++ ks) (Has-append_right js ks k h)

pub Has-append_cases :
    (js ks : List StructType) (k : StructType) → Has (js ++ ks) k → Has js k ⊎ Has ks k
Has-append_cases [] ks k h = inr h
Has-append_cases (j ∷ js) ks k h = elim (Has-cases j k (js ++ ks) h) [
  | inl e ↦ inl (rw (sym e) (Has-here j js))
  | inr e ↦ elim (Has-append_cases js ks k e) [ inl q ↦ inl (Has-there j k js q) | inr q ↦ inr q ]
]

-- The number of types of a list that another does not hold.
unfoldable pub missing : List StructType → List StructType → ℕ
missing [] ks = 0
missing (u ∷ us) ks = let n = missing us ks in if has_type ks u then n else suc n

pub missing-le : (us ks : List StructType) → missing us ks ≤ length us
unfolding missing
missing-le [] ks = omega arith
missing-le (u ∷ us) ks = elim (Bool-cases (has_type ks u)) [
  | inl e ↦ rw e (omega (arith, missing-le us ks))
  | inr e ↦ rw e (omega (arith, missing-le us ks))
]

pub missing-Grows :
    (us js ks : List StructType)
    → ((k : StructType) → Has js k → Has ks k)
    → missing us ks ≤ missing us js
unfolding missing
missing-Grows [] js ks h = omega arith
missing-Grows (u ∷ us) js ks h = elim (Bool-cases (has_type js u)) [
  | inl e ↦ rw e (rw (h u e) (missing-Grows us js ks h))
  | inr e ↦ elim (Bool-cases (has_type ks u)) [
    | inl q ↦ rw e (rw q (omega (arith, missing-Grows us js ks h)))
    | inr q ↦ rw e (rw q (omega (arith, missing-Grows us js ks h)))
  ]
]

pub missing-cons :
    (us ks : List StructType) (k : StructType)
    → Has us k
    → has_type ks k ≡ false
    → missing us (k ∷ ks) < missing us ks
unfolding missing
missing-cons [] ks k h g = absurd (not_Has-nil k h)
missing-cons (u ∷ us) ks k h g = elim (Has-cases u k us h) [
  | inl e ↦
      let step : missing us (k ∷ ks) ≤ missing us ks =
        missing-Grows us ks (k ∷ ks) (λ j q. Has-there k j ks q) in
      rw e (rw g (rw (Has-here k ks) (omega (arith, step))))
  | inr e ↦ elim (Bool-cases (has_type ks u)) [
    | inl q ↦ rw q (rw (Has-there k u ks q) (missing-cons us ks k e g))
    | inr q ↦ rw q (elim (Bool-cases (has_type (k ∷ ks) u)) [
      | inl p ↦ rw p (omega (arith, missing-cons us ks k e g))
      | inr p ↦ rw p (omega (arith, missing-cons us ks k e g))
    ])
  ]
]

-- A type that the loop over the fields passes over has no struct type.
pub struct_types-passed_over :
    (t : DefType) → has_sub_types (ttype_of t) ≡ false → struct_types t ≡ []
unfolding struct_types has_sub_types ttype_of is_enum tag
struct_types-passed_over t_bool h = refl
struct_types-passed_over t_i8 h = refl
struct_types-passed_over t_double h = refl
struct_types-passed_over t_i16 h = refl
struct_types-passed_over t_i32 h = refl
struct_types-passed_over t_i64 h = refl
struct_types-passed_over t_string h = refl
struct_types-passed_over t_enum h = refl
struct_types-passed_over t_binary h = refl
struct_types-passed_over (t_struct s) h = ground arith
struct_types-passed_over (t_map k v) h = ground arith
struct_types-passed_over (t_set v) h = ground arith
struct_types-passed_over (t_list v) h = ground arith
struct_types-passed_over (t_pointer t_bool) h = refl
struct_types-passed_over (t_pointer t_i8) h = refl
struct_types-passed_over (t_pointer t_double) h = refl
struct_types-passed_over (t_pointer t_i16) h = refl
struct_types-passed_over (t_pointer t_i32) h = refl
struct_types-passed_over (t_pointer t_i64) h = refl
struct_types-passed_over (t_pointer t_string) h = refl
struct_types-passed_over (t_pointer t_enum) h = refl
struct_types-passed_over (t_pointer t_binary) h = refl
struct_types-passed_over (t_pointer (t_struct s)) h = ground arith
struct_types-passed_over (t_pointer (t_map k v)) h = refl
struct_types-passed_over (t_pointer (t_set v)) h = ground arith
struct_types-passed_over (t_pointer (t_list v)) h = ground arith
struct_types-passed_over (t_pointer (t_pointer v)) h = refl
