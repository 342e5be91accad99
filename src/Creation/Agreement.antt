-- ===== src/Creation/Agreement.antt =====
-- What the callers of getOrcreateStructDesc in internal/reflect/desc.go get.
use frugal.Base.{ℕ, ◌≡◌, ◌≢◌, sym, ap, ◌∙◌}
use mathlib.Core.Path.{subst}
use frugal.DescMap.{get}
use frugal.Prefetch.{StructType, number, by_value}
use frugal.Creation.{
  Argument, of_struct, of_other, returned, System, initial, struct_address, Reach,
}
use frugal.Creation.Maps.{IsStruct}
use frugal.Creation.Steps.{IsAt, IsSound, Reach-IsSound, initial-IsSound}

module _ (address : Argument → ℕ) (args : ℕ → Argument)
    (inj : (a b : Argument) → address a ≡ address b → a ≡ b) where
  returned_entry :
      (s : System) (i x : ℕ) (k : StructType)
      → IsSound address args s
      → args i ≡ of_struct k
      → s.calls i ≡ returned x
      → (get s.sds (address (of_struct (by_value (number k)))) ≡ x) × (x ≢ 0)
  unfolding IsAt
  returned_entry s i x k a e q =
      let h : IsAt address args s.owner s.sds i (returned x) =
        subst (IsAt address args s.owner s.sds i) q (a.0 i) in
      (ap (λ b. get s.sds (struct_address address b)) (sym e) ∙ h.1, h.2)

  -- In every interleaving of callers, and whatever newStructDescAndPrefetch gives to each of them,
  -- two callers that have a value of one struct type, or a pointer to one, and that have been given
  -- descriptors have been given the same one, and it is not nil. Different types have different
  -- addresses.
  pub Reach-same_descriptor :
      {s : System} (i j x y : ℕ) (k l : StructType)
      → Reach address args initial s
      → args i ≡ of_struct k
      → args j ≡ of_struct l
      → number k ≡ number l
      → s.calls i ≡ returned x
      → s.calls j ≡ returned y
      → (x ≡ y) × (x ≢ 0)
  Reach-same_descriptor {s} i j x y k l r e f n p q =
      let a : IsSound address args s =
        Reach-IsSound address args inj r (initial-IsSound address args inj) in
      let u : (get s.sds (address (of_struct (by_value (number k)))) ≡ x) × (x ≢ 0) =
        returned_entry s i x k a e p in
      let v : (get s.sds (address (of_struct (by_value (number l)))) ≡ y) × (y ≢ 0) =
        returned_entry s j y l a f q in
      (sym u.0 ∙ ap (λ t. get s.sds (address (of_struct (by_value t)))) n ∙ v.0, u.1)

  -- In every interleaving, a caller with a value of another type is never given a descriptor.
  pub Reach-not_struct :
      {s : System} (i x t : ℕ)
      → Reach address args initial s
      → args i ≡ of_other t
      → s.calls i ≢ returned x
  unfolding IsAt
  Reach-not_struct {s} i x t r e q =
      let a : IsSound address args s =
        Reach-IsSound address args inj r (initial-IsSound address args inj) in
      let h : IsAt address args s.owner s.sds i (returned x) =
        subst (IsAt address args s.owner s.sds i) q (a.0 i) in
      subst IsStruct e h.0
