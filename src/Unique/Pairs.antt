-- ===== src/Unique/Pairs.antt =====
-- checkUnique of internal/reflect/utils.go against pairs of places.
use frugal.Base.{
  ℕ, zero, suc, ◌<◌, ◌≡◌, ◌↔◌, refl, sym, Bool, true, false, Bool-cases, inl, inr, arith, List, [],
  ◌∷◌, some, get_elem?,
}
use mathlib.Core.Path.{subst}
use frugal.Unique.{has_equal, check_unique}

true_ne : true ≡ false → ⊥
true_ne q = cc

module _ {ℓ} {A : Type ℓ} (eq : A → A → Bool) where
  -- No element is equal to one behind it.
  abbrev pub IsUnique : List A → Type ℓ
  IsUnique vs =
      (i j : ℕ) (a b : A)
      → i < j
      → get_elem? vs i ≡ some a
      → get_elem? vs j ≡ some b
      → eq a b ≡ false

  some_inj : (a b : A) → some a ≡ some b → a ≡ b
  some_inj a b e = cc

  has_equal-false :
      (v : A) (ws : List A)
      → has_equal eq v ws ≡ false
      → (j : ℕ) (b : A) → get_elem? ws j ≡ some b
      → eq v b ≡ false
  unfolding has_equal
  has_equal-false v [] h j b e = cc
  has_equal-false v (w ∷ ws) h zero b e = elim (Bool-cases (eq v w)) [
    | inl p ↦ absurd (true_ne (rw p at h))
    | inr p ↦ subst (λ z. eq v z ≡ false) (some_inj w b e) p
  ]
  has_equal-false v (w ∷ ws) h (suc j) b e = elim (Bool-cases (eq v w)) [
    | inl p ↦ absurd (true_ne (rw p at h))
    | inr p ↦ has_equal-false v ws (rw p at h) j b e
  ]

  none_equal :
      (v : A) (ws : List A)
      → ((j : ℕ) (b : A) → get_elem? ws j ≡ some b → eq v b ≡ false)
      → has_equal eq v ws ≡ false
  unfolding has_equal
  none_equal v [] h = refl
  none_equal v (w ∷ ws) h = rw (h 0 w refl) (none_equal v ws λ j b e. h (suc j) b e)

  check_unique-IsUnique : (vs : List A) → check_unique eq vs ≡ true → IsUnique vs
  unfolding check_unique
  check_unique-IsUnique [] h i j a b lt e q = cc
  check_unique-IsUnique (v ∷ vs) h zero zero a b lt e q = absurd (omega arith)
  check_unique-IsUnique (v ∷ vs) h zero (suc j) a b lt e q = elim (Bool-cases (has_equal eq v vs)) [
    | inl p ↦ absurd (true_ne (sym (rw p at h)))
    | inr p ↦ subst (λ z. eq z b ≡ false) (some_inj v a e) (has_equal-false v vs p j b q)
  ]
  check_unique-IsUnique (v ∷ vs) h (suc i) zero a b lt e q = absurd (omega arith)
  check_unique-IsUnique (v ∷ vs) h (suc i) (suc j) a b lt e q =
      elim (Bool-cases (has_equal eq v vs)) [
        | inl p ↦ absurd (true_ne (sym (rw p at h)))
        | inr p ↦ check_unique-IsUnique vs (rw p at h) i j a b (omega arith) e q
      ]

  IsUnique-check_unique : (vs : List A) → IsUnique vs → check_unique eq vs ≡ true
  unfolding check_unique
  IsUnique-check_unique [] h = refl
  IsUnique-check_unique (v ∷ vs) h =
      rw (none_equal v vs (λ j b e. h 0 (suc j) v b (omega arith) refl e))
        (IsUnique-check_unique vs λ i j a b lt e q. h (suc i) (suc j) a b (omega arith) e q)

  -- checkUnique gives true exactly for the slices in which no element is equal to a later one.
  pub check_unique_iff : (vs : List A) → (check_unique eq vs ≡ true) ↔ IsUnique vs
  check_unique_iff vs = (check_unique-IsUnique vs, IsUnique-check_unique vs)
