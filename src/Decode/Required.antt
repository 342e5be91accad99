-- ===== src/Decode/Required.antt =====
-- The check of required fields of tDecoder.Decode (internal/reflect/decoder.go), over the bitset
-- that it takes from a pool: unset for every required ID before the loop over the fields, set after
-- each field, and test at the end.
use frugal.Base.{
  ℕ, ◌^◌, ◌<◌, ◌≡◌, refl, ◌∙◌, Bool, true, false, ◌||◌, ◌==◌, if◌then◌else◌, List, [], ◌∷◌, All,
}
use frugal.Base.{Option, none, some, Outcome, ok, ◌>>=◌}
use frugal.Bitset.{Bitset, unset, test}
use frugal.Bitset.Laws.{IsBitset, unset-test}

unfoldable pub unset_all : List ℕ → Bitset → Outcome Bitset
unset_all [] s = ok s
unset_all (f ∷ fs) s = do s' ← unset f s; unset_all fs s'

-- The first required ID that is not in the set.
unfoldable pub first_unset : List ℕ → Bitset → Outcome (Option ℕ)
first_unset [] s = ok none
first_unset (f ∷ fs) s =
    let rest = first_unset fs s in do t ← test f s; if t then rest else ok (some f)

abbrev pub elem : ℕ → List ℕ → Bool
elem j [] = false
elem j (x ∷ xs) = (x == j) || elem j xs

abbrev pub IsIds : List ℕ → Type 0
IsIds = All (λ i. i < 2 ^ 16)

-- A set in which `test` is `v` at the IDs of a list and else what it was in s.
abbrev pub Marks : Bool → List ℕ → Bitset → Outcome Bitset → Type 0
Marks v ids s m =
    (s' : Bitset) × (m ≡ ok s')
    × IsBitset s'
    × ((j : ℕ) → test j s' ≡ (if elem j ids then ok v else test j s))

pub either :
    (a b v : Bool) (x y z : Outcome Bool)
    → y ≡ (if a then ok v else x)
    → z ≡ (if b then ok v else y)
    → z ≡ (if a || b then ok v else x)
either true true v x y z p q = q
either true false v x y z p q = q ∙ p
either false true v x y z p q = q
either false false v x y z p q = q ∙ p

pub unset_all-Marks :
    (ids : List ℕ) (s : Bitset) → IsIds ids → IsBitset s → Marks false ids s (unset_all ids s)
unfolding unset_all
unset_all-Marks [] s h b = (s, refl, b, λ j. refl)
unset_all-Marks (f ∷ fs) s (hf, h) b =
    let (s₁, e₁, b₁, t₁) = unset-test s f b hf in
    let (s₂, e₂, b₂, t₂) = unset_all-Marks fs s₁ h b₁ in
    (
      s₂,
      rw e₁ e₂,
      b₂,
      λ j. either (f == j) (elem j fs) false (test j s) (test j s₁) (test j s₂) (t₁ j) (t₂ j),
    )
