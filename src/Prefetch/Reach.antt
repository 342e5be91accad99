-- ===== src/Prefetch/Reach.antt =====
-- What newStructDescAndPrefetch of internal/reflect/desc.go promises to its caller.
use frugal.Base.{
  ℕ, suc, false, ◌≡◌, inl, inr, refl, sym, ◌∙◌, List, [], ◌∷◌, length, arith, Bool-cases, Outcome,
  ok, err, panic, fault, stuck, Error, Ensures-ok, Runs, Runs-ne-stuck, zero,
}
use mathlib.Core.Path.{subst}
use frugal.Desc.{StructDesc}
use frugal.Prefetch.{
  StructType, number, has_type, same_type, delete, or_delete, StructInfo, new_struct_desc, Cache,
  new_struct_desc_and_prefetch,
}
use frugal.Prefetch.Keys.{Has, missing-le, not_Has-nil}
use frugal.Prefetch.Calls.{Does, Does-weaken, all_struct_types}
use frugal.Prefetch.Complete.{IsComplete, IsConsistent, IsClosed, Keeps}
use frugal.Prefetch.Created.{new_struct_desc_and_prefetch-Creates}
use frugal.Prefetch.Resolved.{IsFlatStruct, new_struct_desc-ne-stuck}

pub ok_inj : (a b : StructDesc) → ok a ≡ ok b → a ≡ b
ok_inj a b e = Ensures-ok (λ x. a ≡ x) e refl

not_Has-delete : (k : StructType) (ks : List StructType) → has_type (delete k ks) k ≡ false
unfolding has_type delete
not_Has-delete k [] = refl
not_Has-delete k (j ∷ ks) = elim (Bool-cases (same_type j k)) [
  | inl e ↦ rw e (not_Has-delete k ks)
  | inr e ↦ rw e (rw e (not_Has-delete k ks))
]

-- An error leaves the type out of the cache.
unfoldable Leaves : StructType → Outcome (Unit {0}) × Cache → Type 0
Leaves k (r, c) = elim r [ err e ↦ has_type c.descs k ≡ false | _ ↦ Unit {0} ]

or_delete-Leaves : (k : StructType) (r : Outcome (Unit {0}) × Cache) → Leaves k (or_delete k r)
unfolding or_delete Leaves
or_delete-Leaves k (ok u, c) = tt
or_delete-Leaves k (err e, c) = not_Has-delete k c.descs
or_delete-Leaves k (panic, c) = tt
or_delete-Leaves k (fault, c) = tt
or_delete-Leaves k (stuck, c) = tt

Does-Runs : (Q : Cache → Type 0) (r : Outcome (Unit {0}) × Cache) → Does Q r → Runs (λ x. Unit) r.0
unfolding Does
Does-Runs Q (ok u, c) h = tt
Does-Runs Q (err e, c) h = tt
Does-Runs Q (panic, c) h = tt
Does-Runs Q (fault, c) h = tt
Does-Runs Q (stuck, c) h = h

module _ (infos : ℕ → StructInfo) where
  -- A value of struct type `j` can stand in a field of struct type `k`.
  abbrev pub HasInside : StructType → StructType → Type 0
  HasInside k j =
      (sd : StructDesc) × (new_struct_desc (infos (number k)) ≡ ok sd)
      × Has (all_struct_types sd.fields) j

  -- The struct types at any depth below `k`.
  pub data Reaches (k : StructType) : StructType → Type 0 where
    direct : {j : StructType} → HasInside k j → Reaches k j
    deeper : {i j : StructType} → Reaches k i → HasInside i j → Reaches k j

  module _ (c : Cache) (h : IsConsistent infos [] c) where
    cached-IsComplete : (k : StructType) → Has c.descs k → IsComplete infos c k
    cached-IsComplete k q = elim (h.0 k q) [ inl e ↦ absurd (not_Has-nil k e) | inr e ↦ e ]

    inside-linked : (k j : StructType) → IsComplete infos c k → HasInside k j → Has c.linked j
    inside-linked k j (sd, e, l) (sd', e', q) =
        let p : sd' ≡ sd = ok_inj sd' sd (sym e' ∙ e) in
        l j (subst (λ x. Has (all_struct_types x.fields) j) p q)

    Reaches-linked : (k j : StructType) → Has c.descs k → Reaches k j → Has c.linked j
    Reaches-linked k j q (direct s) = inside-linked k j (cached-IsComplete k q) s
    Reaches-linked k j q (deeper r s) =
        inside-linked _ j (cached-IsComplete _ (h.1 _ (Reaches-linked k _ q r))) s

  module _ (us : List StructType) (closed : IsClosed infos us)
      (flat : (s : ℕ) → IsFlatStruct (infos s).fields) where
    call_Does :
        (k : StructType) (c : Cache)
        → Has us k
        → Does
            (λ c'. Keeps infos c c' × Has c'.descs k)
            (new_struct_desc_and_prefetch infos (suc (length us)) k c)
    call_Does k c u =
        new_struct_desc_and_prefetch-Creates infos us closed
          (λ s e. new_struct_desc-ne-stuck (infos s) (flat s) e) (suc (length us)) k c u
          (omega (arith, missing-le us c.descs))

    -- For struct types of a finite closed set, in which no field's Go type has a pointer to a
    -- pointer or holds itself other than through a struct (`type M map[string]M`), and from any
    -- caches, newStructDescAndPrefetch comes to an end within a depth of calls of one more than the
    -- number of types, also for struct types that hold one another.
    pub new_struct_desc_and_prefetch-ne-stuck :
        (k : StructType) (c : Cache)
        → Has us k
        → (new_struct_desc_and_prefetch infos (suc (length us)) k c).0 ≡ stuck
        → ⊥
    new_struct_desc_and_prefetch-ne-stuck k c u e =
        Runs-ne-stuck (λ x. Unit)
          (Does-Runs _ (new_struct_desc_and_prefetch infos _ k c) (call_Does k c u)) e

    -- For struct types of a finite closed set, in which no field's Go type has a pointer to a
    -- pointer or holds itself other than through a struct, and from caches in which each descriptor
    -- is complete (after a failed prefetch they may not be), if newStructDescAndPrefetch succeeds,
    -- the struct type is cached, the caches are complete again, and every struct type at any depth
    -- below it has its Sd and a complete descriptor.
    pub new_struct_desc_and_prefetch-Reaches :
        (k : StructType) (c : Cache)
        → Has us k
        → IsConsistent infos [] c
        → Does
            (λ c'.
              Has c'.descs k
              × IsConsistent infos [] c'
              × ((j : StructType) → Reaches k j → Has c'.linked j × IsComplete infos c' j))
            (new_struct_desc_and_prefetch infos (suc (length us)) k c)
    new_struct_desc_and_prefetch-Reaches k c u h =
        Does-weaken _ _ (new_struct_desc_and_prefetch infos (suc (length us)) k c) (call_Does k c u)
          λ c' q.
            let i : IsConsistent infos [] c' = q.0.1 [] h in
            (
              q.1,
              i,
              λ j r.
                  let l : Has c'.linked j = Reaches-linked c' i k j q.1 r in
                  (l, cached-IsComplete c' i j (i.1 j l)),
            )

  not_cached-Leaves :
      (fuel : ℕ) (k : StructType) (c : Cache)
      → has_type c.descs k ≡ false
      → (r : Outcome StructDesc) → new_struct_desc (infos (number k)) ≡ r
      → Leaves k (new_struct_desc_and_prefetch infos (suc fuel) k c)
  unfolding new_struct_desc_and_prefetch Leaves
  not_cached-Leaves fuel k c g (ok sd) e = rw g (rw e (or_delete-Leaves k _))
  not_cached-Leaves fuel k c g (err x) e = rw g (rw e g)
  not_cached-Leaves fuel k c g panic e = rw g (rw e tt)
  not_cached-Leaves fuel k c g fault e = rw g (rw e tt)
  not_cached-Leaves fuel k c g stuck e = rw g (rw e tt)

  call_Leaves :
      (fuel : ℕ) (k : StructType) (c : Cache)
      → Leaves k (new_struct_desc_and_prefetch infos fuel k c)
  unfolding new_struct_desc_and_prefetch Leaves
  call_Leaves zero k c = tt
  call_Leaves (suc fuel) k c = elim (Bool-cases (has_type c.descs k)) [
    | inl e ↦ rw e tt
    | inr e ↦ not_cached-Leaves fuel k c e (new_struct_desc (infos (number k))) refl
  ]

  -- If newStructDescAndPrefetch gives an error, the struct type is not cached after it.
  pub new_struct_desc_and_prefetch-err :
      (fuel : ℕ) (k : StructType) (c c' : Cache) (e : Error)
      → new_struct_desc_and_prefetch infos fuel k c ≡ (err e, c')
      → has_type c'.descs k ≡ false
  unfolding Leaves
  new_struct_desc_and_prefetch-err fuel k c c' e q = subst (Leaves k) q (call_Leaves fuel k c)
