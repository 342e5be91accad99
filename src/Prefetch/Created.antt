-- ===== src/Prefetch/Created.antt =====
-- What newStructDescAndPrefetch of internal/reflect/desc.go leaves in its caches.
use frugal.Base.{
  ℕ, zero, suc, false, ◌≡◌, inl, inr, refl, sym, List, ◌∷◌, arith, Bool-cases, Outcome, ok, err,
  panic, fault, stuck,
}
use mathlib.Core.Path.{subst}
use frugal.Desc.{StructDesc}
use frugal.Prefetch.{
  StructType, number, has_type, StructInfo, new_struct_desc, Cache, new_struct_desc_and_prefetch,
}
use frugal.Prefetch.Keys.{Has, missing-cons, Has-here, Has-there, Has-cases}
use frugal.Prefetch.Calls.{all_struct_types, Linked, Does, Does-or_delete}
use frugal.Prefetch.Complete.{
  IsComplete, IsConsistent, IsClosed, Keeps, Keeps-refl, Fits, Creates,
  prefetch_sub_struct_desc-Does,
}

module _ (infos : ℕ → StructInfo) where
  module _ (k : StructType) (sd : StructDesc) (e : new_struct_desc (infos (number k)) ≡ ok sd)
      (c : Cache) where
    -- The caches with the new descriptor, whose fields are not linked yet.
    abbrev Entered : Cache
    Entered = record c { descs = k ∷ c.descs }

    Entered-IsConsistent :
        (ps : List StructType) → IsConsistent infos ps c → IsConsistent infos (k ∷ ps) Entered
    Entered-IsConsistent ps i = (
      λ j q. elim (Has-cases k j c.descs q) [
        | inl p ↦ inl (rw (sym p) (Has-here k ps))
        | inr p ↦ elim (i.0 j p) [ inl r ↦ inl (Has-there k j ps r) | inr r ↦ inr r ]
      ],
      λ j q. Has-there k j c.descs (i.1 j q),
    )

    -- Its fields' struct types are linked: it is complete.
    Keeps-Entered :
        (c' : Cache)
        → Keeps infos Entered c'
        → Linked c' (all_struct_types sd.fields)
        → Keeps infos c c'
    Keeps-Entered c' f l = (
      (λ j q. f.0.0 j (Has-there k j c.descs q), f.0.1),
      λ ps i.
          let i' : IsConsistent infos (k ∷ ps) c' = f.1 (k ∷ ps) (Entered-IsConsistent ps i) in
          (
            λ j q. elim (i'.0 j q) [
              | inl p ↦ elim (Has-cases k j ps p) [
                | inl r ↦ inr (subst (IsComplete infos c') r (sd, e, l))
                | inr r ↦ inl r
              ]
              | inr p ↦ inr p
            ],
            i'.1,
          ),
    )

  module _ (us : List StructType) (closed : IsClosed infos us)
      (made : (s : ℕ) → new_struct_desc (infos s) ≡ stuck → ⊥) where
    -- A struct type that is not cached, whose descriptor comes out as `r`.
    not_cached :
        (fuel : ℕ) (k : StructType) (c : Cache)
        → Creates infos us fuel (new_struct_desc_and_prefetch infos fuel)
        → Has us k
        → Fits infos us (suc fuel) (new_struct_desc_and_prefetch infos (suc fuel)) c
        → has_type c.descs k ≡ false
        → (r : Outcome StructDesc) → new_struct_desc (infos (number k)) ≡ r
        → Does
            (λ c'. Keeps infos c c' × Has c'.descs k)
            (new_struct_desc_and_prefetch infos (suc fuel) k c)
    unfolding new_struct_desc_and_prefetch Does
    not_cached fuel k c h u m g (ok sd) e = rw g (
        rw e (
          Does-or_delete
            (λ c'. Keeps infos (Entered k sd e c) c' × Linked c' (all_struct_types sd.fields))
            (λ c'. Keeps infos c c' × Has c'.descs k) k _
            (prefetch_sub_struct_desc-Does infos us fuel (new_struct_desc_and_prefetch infos fuel) h
              sd.fields (Entered k sd e c) (closed k sd u e)
              (omega (arith, missing-cons us c.descs k u g)))
            λ c' q. (Keeps-Entered k sd e c c' q.0 q.1, q.0.0.0 k (Has-here k c.descs))))
    not_cached fuel k c h u m g (err x) e = rw g (rw e tt)
    not_cached fuel k c h u m g panic e = rw g (rw e tt)
    not_cached fuel k c h u m g fault e = rw g (rw e tt)
    not_cached fuel k c h u m g stuck e = absurd (made (number k) e)

    pub new_struct_desc_and_prefetch-Creates :
        (fuel : ℕ) → Creates infos us fuel (new_struct_desc_and_prefetch infos fuel)
    unfolding new_struct_desc_and_prefetch Does
    new_struct_desc_and_prefetch-Creates zero k c u m = absurd (omega arith)
    new_struct_desc_and_prefetch-Creates (suc fuel) k c u m =
        elim (Bool-cases (has_type c.descs k)) [
          | inl e ↦ rw e (Keeps-refl infos c, e)
          | inr e ↦
              not_cached fuel k c (new_struct_desc_and_prefetch-Creates fuel) u m e
                (new_struct_desc (infos (number k))) refl
        ]
