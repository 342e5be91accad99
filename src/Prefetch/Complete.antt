-- ===== src/Prefetch/Complete.antt =====
-- What prefetchSubStructDesc and fetchStructDesc of internal/reflect/desc.go leave in the caches, given
-- what newStructDescAndPrefetch does.
use frugal.Base.{
  ℕ, ◌<◌, ◌≡◌, ◌⊎◌, inl, inr, sym, List, [], ◌∷◌, ◌++◌, arith, Bool-cases, Outcome, ok,
}
use frugal.Types.{
  DefType, t_struct, t_map, t_set, t_list, t_pointer, t_bool, t_i8, t_double, t_i16, t_i32, t_i64,
  t_string, t_enum, t_binary, ttype_of,
}
use frugal.Desc.{TField, StructDesc}
use frugal.Prefetch.{
  StructType, by_value, by_pointer, number, has_type, StructInfo, new_struct_desc, Cache, Action,
  and_then, link, fetch_struct_desc, has_sub_types, prefetch_sub_struct_desc,
}
use frugal.Prefetch.Keys.{
  Has, struct_types, missing, missing-Grows, Has-here, Has-there, Has-cases, Has-append_left,
  Has-append_right, struct_types-passed_over, not_Has-nil,
}
use frugal.Prefetch.Calls.{
  all_struct_types, Linked, Does, Does-and_then, Grows, Grows-trans, Does-weaken, Linked-one,
  Linked-append,
}

module _ (infos : ℕ → StructInfo) where
  -- A cached struct type whose descriptor the fields' struct types are all linked in.
  abbrev pub IsComplete : Cache → StructType → Type 0
  IsComplete c k =
      (sd : StructDesc) × (new_struct_desc (infos (number k)) ≡ ok sd)
      × Linked c (all_struct_types sd.fields)

  -- A cached type is complete, or its descriptor is being made; a linked one is cached.
  abbrev pub IsConsistent : List StructType → Cache → Type 0
  IsConsistent ps c =
      ((k : StructType) → Has c.descs k → Has ps k ⊎ IsComplete c k)
      × ((k : StructType) → Has c.linked k → Has c.descs k)

  -- `us` is closed: the struct types of a struct of it are in it.
  abbrev pub IsClosed : List StructType → Type 0
  IsClosed us =
      (k : StructType) (sd : StructDesc)
      → Has us k
      → new_struct_desc (infos (number k)) ≡ ok sd
      → (j : StructType) → Has (all_struct_types sd.fields) j
      → Has us j

  -- What a call does to consistent caches.
  abbrev pub Keeps : Cache → Cache → Type 0
  Keeps c c' = Grows c c' × ((ps : List StructType) → IsConsistent ps c → IsConsistent ps c')

  pub Keeps-refl : (c : Cache) → Keeps c c
  Keeps-refl c = ((λ k q. q, λ k q. q), λ ps i. i)

  pub Keeps-trans : (a b c : Cache) → Keeps a b → Keeps b c → Keeps a c
  Keeps-trans a b c f g = (Grows-trans a b c f.0 g.0, λ ps i. g.1 ps (f.1 ps i))

  IsComplete-linked :
      (c c' : Cache) (k : StructType) → Grows c c' → IsComplete c k → IsComplete c' k
  IsComplete-linked c c' k g (sd, e, l) = (sd, e, λ j q. g.1 j (l j q))

  -- The assignment to a Sd.
  Keeps-link :
      (c c' : Cache) (k : StructType)
      → Keeps c c'
      → Has c'.descs k
      → Keeps c (record c' { linked = k ∷ c'.linked })
  Keeps-link c c' k f d =
      let c₁ : Cache = record c' { linked = k ∷ c'.linked } in
      let g : Grows c' c₁ = (λ j q. q, λ j q. Has-there k j c'.linked q) in
      (
        Grows-trans c c' c₁ f.0 g,
        λ ps i. (
          λ j q. elim ((f.1 ps i).0 j q) [
            | inl p ↦ inl p
            | inr p ↦ inr (IsComplete-linked c' c₁ j g p)
          ],
          λ j q. elim (Has-cases k j c'.linked q) [
            | inl e ↦ rw (sym e) d
            | inr e ↦ (f.1 ps i).1 j e
          ],
        ),
      )

  module _ (us : List StructType) (n : ℕ) (create : StructType → Action) where
    abbrev pub Fits : Cache → Type 0
    Fits c = missing us c.descs < n

    Fits-Keeps : (c c' : Cache) → Keeps c c' → Fits c → Fits c'
    Fits-Keeps c c' f m = omega (arith, missing-Grows us c.descs c'.descs f.0.0)

    -- `create` makes a descriptor for caches that miss fewer than `n` of the types.
    abbrev pub Creates : Type 0
    Creates =
        (k : StructType) (c : Cache)
        → Has us k
        → Fits c
        → Does (λ c'. Keeps c c' × Has c'.descs k) (create k c)

    module _ (h : Creates) where
      link-Does :
          (k : StructType) (c : Cache)
          → Has us k
          → Fits c
          → Does (λ c'. Keeps c c' × Linked c' (k ∷ [])) (link create k c)
      unfolding link Does
      link-Does k c u m = elim (Bool-cases (has_type c.linked k)) [
        | inl e ↦ rw e (Keeps-refl c, Linked-one k c e)
        | inr e ↦ rw e (
            Does-and_then (λ c'. Keeps c c' × Has c'.descs k)
              (λ c'. Keeps c c' × Linked c' (k ∷ [])) (create k c) _ (h k c u m)
              λ c' q. (
                Keeps-link c c' k q.0 q.1,
                Linked-one k (record c' { linked = k ∷ c'.linked }) (Has-here k c'.linked),
              ))
      ]

      -- Two parts, one after the other.
      both_Do :
          (js ks : List StructType) (c : Cache) (r : Outcome (Unit {0}) × Cache) (a : Action)
          → Fits c
          → Does (λ c'. Keeps c c' × Linked c' js) r
          → ((c' : Cache) → Fits c' → Does (λ c₁. Keeps c' c₁ × Linked c₁ ks) (a c'))
          → Does (λ c'. Keeps c c' × Linked c' (js ++ ks)) (and_then r a)
      both_Do js ks c r a m p q =
          Does-and_then (λ c'. Keeps c c' × Linked c' js) (λ c'. Keeps c c' × Linked c' (js ++ ks))
            r a p
            λ c' f.
              Does-weaken (λ c₁. Keeps c' c₁ × Linked c₁ ks)
                (λ c₁. Keeps c c₁ × Linked c₁ (js ++ ks)) (a c') (q c' (Fits-Keeps c c' f.0 m))
                λ c₁ g. (
                  Keeps-trans c c' c₁ f.0 g.0,
                  Linked-append js ks c₁ (λ k l. g.0.0.1 k (f.1 k l)) g.1,
                )

      nothing : (c : Cache) → Keeps c c × Linked c []
      nothing c = (Keeps-refl c, λ k q. absurd (not_Has-nil k q))

      fetch_struct_desc-Does :
          (t : DefType) (c : Cache)
          → ((k : StructType) → Has (struct_types t) k → Has us k)
          → Fits c
          → Does (λ c'. Keeps c c' × Linked c' (struct_types t)) (fetch_struct_desc create t c)
      unfolding fetch_struct_desc struct_types Does
      fetch_struct_desc-Does (t_map k v) c u m =
          both_Do (struct_types k) (struct_types v) c (fetch_struct_desc create k c) _ m
            (fetch_struct_desc-Does k c
              (λ j q. u j (Has-append_left (struct_types k) (struct_types v) j q)) m)
            λ c' m'.
              fetch_struct_desc-Does v c'
                (λ j q. u j (Has-append_right (struct_types k) (struct_types v) j q)) m'
      fetch_struct_desc-Does (t_set v) c u m = fetch_struct_desc-Does v c u m
      fetch_struct_desc-Does (t_list v) c u m = fetch_struct_desc-Does v c u m
      fetch_struct_desc-Does (t_struct s) c u m =
          link-Does (by_value s) c (u (by_value s) (Has-here (by_value s) [])) m
      fetch_struct_desc-Does (t_pointer (t_struct s)) c u m =
          link-Does (by_pointer s) c (u (by_pointer s) (Has-here (by_pointer s) [])) m
      fetch_struct_desc-Does (t_pointer (t_set v)) c u m = fetch_struct_desc-Does v c u m
      fetch_struct_desc-Does (t_pointer (t_list v)) c u m = fetch_struct_desc-Does v c u m
      fetch_struct_desc-Does (t_pointer (t_map k v)) c u m = tt
      fetch_struct_desc-Does (t_pointer (t_pointer v)) c u m = tt
      fetch_struct_desc-Does (t_pointer t_bool) c u m = nothing c
      fetch_struct_desc-Does (t_pointer t_i8) c u m = nothing c
      fetch_struct_desc-Does (t_pointer t_double) c u m = nothing c
      fetch_struct_desc-Does (t_pointer t_i16) c u m = nothing c
      fetch_struct_desc-Does (t_pointer t_i32) c u m = nothing c
      fetch_struct_desc-Does (t_pointer t_i64) c u m = nothing c
      fetch_struct_desc-Does (t_pointer t_string) c u m = nothing c
      fetch_struct_desc-Does (t_pointer t_enum) c u m = nothing c
      fetch_struct_desc-Does (t_pointer t_binary) c u m = nothing c
      fetch_struct_desc-Does t_bool c u m = nothing c
      fetch_struct_desc-Does t_i8 c u m = nothing c
      fetch_struct_desc-Does t_double c u m = nothing c
      fetch_struct_desc-Does t_i16 c u m = nothing c
      fetch_struct_desc-Does t_i32 c u m = nothing c
      fetch_struct_desc-Does t_i64 c u m = nothing c
      fetch_struct_desc-Does t_string c u m = nothing c
      fetch_struct_desc-Does t_enum c u m = nothing c
      fetch_struct_desc-Does t_binary c u m = nothing c

      pub prefetch_sub_struct_desc-Does :
          (fs : List TField) (c : Cache)
          → ((k : StructType) → Has (all_struct_types fs) k → Has us k)
          → Fits c
          → Does
              (λ c'. Keeps c c' × Linked c' (all_struct_types fs))
              (prefetch_sub_struct_desc create fs c)
      unfolding prefetch_sub_struct_desc Does
      prefetch_sub_struct_desc-Does [] c u m = nothing c
      prefetch_sub_struct_desc-Does (f ∷ fs) c u m =
          both_Do (struct_types f.type) (all_struct_types fs) c _ _ m
            (elim (Bool-cases (has_sub_types (ttype_of f.type))) [
              | inl e ↦ rw e (
                  fetch_struct_desc-Does f.type c
                    (λ j q. u j (Has-append_left (struct_types f.type) (all_struct_types fs) j q))
                    m)
              | inr e ↦ rw e (rw (struct_types-passed_over f.type e) (nothing c))
            ])
            λ c' m'.
              prefetch_sub_struct_desc-Does fs c'
                (λ j q. u j (Has-append_right (struct_types f.type) (all_struct_types fs) j q)) m'
