-- ===== src/Resolve/Order.antt =====
-- The sort by ID puts fields of different IDs in ascending order.
use frugal.Base.{◌<◌, ◌≢◌, inl, inr, arith, Bool-cases, List, [], ◌∷◌, All}
use frugal.Base.{ltb, ltb→lt, not_ltb→le}
use frugal.Desc.{Field}
use frugal.Desc.Table.{All-map}
use frugal.Resolve.{insert_field, sort_fields}

-- The IDs grow.
abbrev pub IsAscending : List Field → Type 0
IsAscending [] = Unit
IsAscending (f ∷ fs) = All (λ g. f.id < g.id) fs × IsAscending fs

abbrev pub AreApart : List Field → Type 0
AreApart [] = Unit
AreApart (f ∷ fs) = All (λ g. g.id ≢ f.id) fs × AreApart fs

insert-All :
    (P : Field → Type 0) (f : Field) (gs : List Field) → P f → All P gs → All P (insert_field f gs)
unfolding insert_field
insert-All P f [] p ps = (p, tt)
insert-All P f (g ∷ gs) p (q, qs) = elim (Bool-cases (ltb g.id f.id)) [
  | inl e ↦ rw e (q, insert-All P f gs p qs)
  | inr e ↦ rw e (p, (q, qs))
]

insert-IsAscending :
    (f : Field) (gs : List Field)
    → All (λ g. g.id ≢ f.id) gs
    → IsAscending gs
    → IsAscending (insert_field f gs)
unfolding insert_field
insert-IsAscending f [] n h = (tt, tt)
insert-IsAscending f (g ∷ gs) (n, ns) (h, hs) = elim (Bool-cases (ltb g.id f.id)) [
  | inl e ↦ rw e (insert-All _ f gs (ltb→lt g.id f.id e) h, insert-IsAscending f gs ns hs)
  | inr e ↦
      let lt : f.id < g.id = omega (arith, not_ltb→le g.id f.id e, n) in
      rw e ((lt, All-map gs (λ k q. omega (arith, q, lt)) h), (h, hs))
]

pub sort-All : (P : Field → Type 0) (fs : List Field) → All P fs → All P (sort_fields fs)
unfolding sort_fields
sort-All P [] h = tt
sort-All P (f ∷ fs) (p, ps) = insert-All P f (sort_fields fs) p (sort-All P fs ps)

pub sort-IsAscending : (fs : List Field) → AreApart fs → IsAscending (sort_fields fs)
unfolding sort_fields
sort-IsAscending [] h = tt
sort-IsAscending (f ∷ fs) (n, ns) =
    insert-IsAscending f (sort_fields fs) (sort-All _ fs n) (sort-IsAscending fs ns)
