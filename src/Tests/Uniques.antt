-- ===== src/Tests/Uniques.antt =====
-- The check of set elements on samples.
use frugal.Base.{◌==◌, ◌≡◌, ◌↔◌, refl, true, [], ◌∷◌, ok, err, not_unique}
use frugal.Types.{double_t, i32_t}
use frugal.Value.{num}
use frugal.Child.{f64_eq}
use frugal.Unique
use frugal.Unique.{check_unique, check_uniqueness}
use frugal.Unique.Pairs.{IsUnique, check_unique_iff}

twice : check_uniqueness i32_t (num 7 ∷ num 8 ∷ num 7 ∷ []) ≡ err not_unique
unfolding check_uniqueness Unique.unique_or_err Unique.read_all check_unique Unique.has_equal
twice = refl

-- Two NaNs pass, and the two zeros do not.
nan_twice :
    check_uniqueness double_t (num 0x7ff8_0000_0000_0000 ∷ num 0x7ff8_0000_0000_0000 ∷ []) ≡ ok tt
unfolding check_uniqueness Unique.unique_or_err Unique.read_all check_unique Unique.has_equal f64_eq
nan_twice = refl

zeros : check_uniqueness double_t (num 0 ∷ num 0x8000_0000_0000_0000 ∷ []) ≡ err not_unique
unfolding check_uniqueness Unique.unique_or_err Unique.read_all check_unique Unique.has_equal f64_eq
zeros = refl

check_unique_iff_example :
    (check_unique ◌==◌ (7 ∷ 8 ∷ 9 ∷ []) ≡ true) ↔ IsUnique ◌==◌ (7 ∷ 8 ∷ 9 ∷ [])
check_unique_iff_example = check_unique_iff ◌==◌ (7 ∷ 8 ∷ 9 ∷ [])
