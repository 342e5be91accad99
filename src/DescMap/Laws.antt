-- ===== src/DescMap/Laws.antt =====
-- The map of descriptors is a map: Get after Set.
use frugal.Base.{ℕ, ◌<◌, ◌≡◌, ◌≢◌, refl, sym, ap, arith, if◌then◌else◌, ◌==◌}
use frugal.Base.{List, [], ◌∷◌, some, ==_self, ==_ne, eq_or_ne, inl, inr, Bool-cases}
use frugal.Base.Bits.{bit_and-le_mask}
use frugal.DescMap.{Item, MapStructDesc, bucket, find, get, put, set, items_of}

find-put : (xs : List Item) (k sd j : ℕ) → find (put xs k sd) j ≡ (if k == j then sd else find xs j)
unfolding find put
find-put [] k sd j = refl
find-put (x ∷ xs) k sd j = elim (eq_or_ne x.abi_type k) [
  | inl e ↦ elim (Bool-cases (k == j)) [
    | inl q ↦ rw (e, ==_self k, q)
    | inr q ↦ rw (e, ==_self k, q)
  ]
  | inr n ↦ elim (eq_or_ne x.abi_type j) [
    | inl e ↦
        rw (==_ne x.abi_type k n, ← e, ==_self x.abi_type, ==_ne k x.abi_type (λ q. n (sym q)))
    | inr d ↦ rw (==_ne x.abi_type k n, ==_ne x.abi_type j d) (find-put xs k sd j)
  ]
]

-- The slot of a type is one of the array's 65536.
pub bucket-in_range : (k : ℕ) → bucket k < 65536
bucket-in_range k = omega (arith, bit_and-le_mask k 65535)

-- After Set of one type Get returns the new descriptor for it, and for every other type what it
-- returned before, whether or not the two types share a slot.
pub get-set :
    (m : MapStructDesc) (k sd j : ℕ) → get (set m k sd) j ≡ (if k == j then sd else get m j)
unfolding get set
get-set m k sd j = elim (eq_or_ne (get m k) sd) [
  | inl e ↦ rw (e, ==_self sd) (same e)
  | inr n ↦ rw (==_ne (get m k) sd n) stored
]
  where
    same : get m k ≡ sd → get m j ≡ (if k == j then sd else get m j)
    same e = elim (eq_or_ne k j) [ inl q ↦ rw (← q, ==_self k) e | inr d ↦ rw (==_ne k j d) ]

    other : bucket j ≢ bucket k → k ≢ j
    other b q = b (ap bucket (sym q))

    stored :
        find
          (items_of (
            if bucket j == bucket k
            then some (put (items_of (m.slots (bucket k))) k sd)
            else m.slots (bucket j)))
          j
        ≡ (if k == j then sd else find (items_of (m.slots (bucket j))) j)
    stored = elim (eq_or_ne (bucket j) (bucket k)) [
      | inl b ↦ rw (b, ==_self (bucket k)) (find-put (items_of (m.slots (bucket k))) k sd j)
      | inr b ↦ rw (==_ne (bucket j) (bucket k) b, ==_ne k j (other b))
    ]
