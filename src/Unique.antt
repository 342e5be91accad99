-- ===== src/Unique.antt =====
-- checkUnique and checkUniqueness of internal/reflect/utils.go, on the elements of a slice.
pub mod Pairs
use frugal.Base.{
  ℕ, Bool, true, false, ◌==◌, if◌then◌else◌, List, [], ◌∷◌, Outcome, ok, err, ◌>>=◌, not_unique,
}
use frugal.Types.{
  TType, bool_t, byte_t, double_t, i16_t, i32_t, i64_t, string_t, struct_t, map_t, set_t, list_t,
  enum_t,
}
use frugal.Value.{Val}
use frugal.Child.{as_num, as_str, f64_eq, bytes_eq}

module _ {ℓ} {A : Type ℓ} (eq : A → A → Bool) where
  -- `for j := i + 1; j < len(vv); j++`
  unfoldable pub has_equal : A → List A → Bool
  has_equal v [] = false
  has_equal v (w ∷ ws) = let rest = has_equal v ws in if eq v w then true else rest

  unfoldable pub check_unique : List A → Bool
  check_unique [] = true
  check_unique (v ∷ vs) = let rest = check_unique vs in if has_equal v vs then false else rest

-- The slice read at a type, as by unsafe.Slice.
unfoldable pub read_all {ℓ} : {A : Type ℓ} → (Val → Outcome A) → List Val → Outcome (List A)
read_all read [] = ok []
read_all read (v ∷ vs) = do a ← read v; rest ← read_all read vs; ok (a ∷ rest)

unfoldable pub unique_or_err {ℓ} :
    {A : Type ℓ} → (A → A → Bool) → Outcome (List A) → Outcome (Unit {0})
unique_or_err eq r = do vs ← r; if check_unique eq vs then ok tt else err not_unique

unfoldable pub check_uniqueness : TType → List Val → Outcome (Unit {0})
check_uniqueness bool_t vs = unique_or_err ◌==◌ (read_all as_num vs)
check_uniqueness byte_t vs = unique_or_err ◌==◌ (read_all as_num vs)
check_uniqueness i16_t vs = unique_or_err ◌==◌ (read_all as_num vs)
check_uniqueness i32_t vs = unique_or_err ◌==◌ (read_all as_num vs)
check_uniqueness i64_t vs = unique_or_err ◌==◌ (read_all as_num vs)
check_uniqueness enum_t vs = unique_or_err ◌==◌ (read_all as_num vs)
check_uniqueness double_t vs = unique_or_err f64_eq (read_all as_num vs)
check_uniqueness string_t vs = unique_or_err bytes_eq (read_all as_str vs)
check_uniqueness _ vs = ok tt
