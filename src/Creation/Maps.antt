-- ===== src/Creation/Maps.antt =====
-- What the map of descriptors holds for structs and for the pointers to them: the two calls of Set in
-- createStructDesc of internal/reflect/desc.go.
use frugal.Base.{ℕ, ◌≡◌, ◌≢◌, ◌⊎◌, inl, inr, refl, sym, ap, ◌∙◌, ==_self, ==_ne, eq_or_ne, arith}
use frugal.DescMap.{MapStructDesc, new_map_struct_desc, get, set, find}
use frugal.DescMap.Laws.{get-set}
use frugal.Prefetch.{by_value, by_pointer, number}
use frugal.Creation.{Argument, of_struct, of_other, struct_address, share}

abbrev pub IsStruct : Argument → Type 0
IsStruct (of_struct k) = Unit
IsStruct (of_other t) = ⊥

pub get-set_self : (m : MapStructDesc) (k sd : ℕ) → get (set m k sd) k ≡ sd
get-set_self m k sd = get-set m k sd k ∙ rw (==_self k) refl

pub get-set_ne : (m : MapStructDesc) (k sd j : ℕ) → k ≢ j → get (set m k sd) j ≡ get m j
get-set_ne m k sd j n = get-set m k sd j ∙ rw (==_ne k j n) refl

module _ (address : Argument → ℕ) where
  abbrev pub value_at : ℕ → ℕ
  value_at t = address (of_struct (by_value t))

  abbrev pub pointer_at : ℕ → ℕ
  pointer_at t = address (of_struct (by_pointer t))

  -- A pointer has no entry or its struct's, and no other type has one.
  abbrev pub IsShared : MapStructDesc → Type 0
  IsShared m =
      ((t : ℕ) → (get m (pointer_at t) ≡ 0) ⊎ (get m (pointer_at t) ≡ get m (value_at t)))
      × ((t : ℕ) → get m (address (of_other t)) ≡ 0)

  -- The structs' entries stay.
  abbrev pub Extends : MapStructDesc → MapStructDesc → Type 0
  Extends m m' =
      (a : Argument)
      → IsStruct a
      → get m (struct_address address a) ≢ 0
      → get m' (struct_address address a) ≡ get m (struct_address address a)

  pub found-IsStruct :
      (m : MapStructDesc) (a : Argument)
      → IsShared m
      → get m (address a) ≢ 0
      → IsStruct a × (get m (struct_address address a) ≡ get m (address a))
  unfolding number
  found-IsStruct m (of_other t) h n = absurd (n (h.1 t))
  found-IsStruct m (of_struct (by_value t)) h n = (tt, refl)
  found-IsStruct m (of_struct (by_pointer t)) h n = elim (h.0 t) [
    | inl e ↦ absurd (n e)
    | inr e ↦ (tt, sym e)
  ]

  module _ (inj : (a b : Argument) → address a ≡ address b → a ≡ b) where
    value_ne_pointer : (t u : ℕ) → value_at t ≢ pointer_at u
    value_ne_pointer t u e =
        ground (arith, inj (of_struct (by_value t)) (of_struct (by_pointer u)) e)

    value_ne_other : (t u : ℕ) → value_at t ≢ address (of_other u)
    value_ne_other t u e = ground (arith, inj (of_struct (by_value t)) (of_other u) e)

    pointer_ne_other : (t u : ℕ) → pointer_at t ≢ address (of_other u)
    pointer_ne_other t u e = ground (arith, inj (of_struct (by_pointer t)) (of_other u) e)

    value_inj : (t u : ℕ) → value_at t ≡ value_at u → t ≡ u
    value_inj t u e = ground (arith, inj (of_struct (by_value t)) (of_struct (by_value u)) e)

    pointer_inj : (t u : ℕ) → pointer_at t ≡ pointer_at u → t ≡ u
    pointer_inj t u e = ground (arith, inj (of_struct (by_pointer t)) (of_struct (by_pointer u)) e)

    pub set_struct-Extends : (m : MapStructDesc) (k sd : ℕ) → get m k ≡ 0 → Extends m (set m k sd)
    set_struct-Extends m k sd e a s n =
        get-set_ne m k sd (struct_address address a) λ q. n (ap (get m) (sym q) ∙ e)

    pub set_struct-IsShared :
        (m : MapStructDesc) (a : Argument) (sd : ℕ)
        → IsStruct a
        → IsShared m
        → get m (struct_address address a) ≡ 0
        → IsShared (set m (struct_address address a) sd)
    set_struct-IsShared m (of_other t) sd s h e = absurd s
    set_struct-IsShared m (of_struct k) sd s h e = (
      λ u.
          let p : get (set m (value_at (number k)) sd) (pointer_at u) ≡ get m (pointer_at u) =
            get-set_ne m _ sd (pointer_at u) (value_ne_pointer (number k) u) in
          elim (h.0 u) [
            | inl z ↦ inl (p ∙ z)
            | inr z ↦ elim (eq_or_ne (number k) u) [
              | inl q ↦ inl (p ∙ z ∙ ap (λ x. get m (value_at x)) (sym q) ∙ e)
              | inr d ↦
                  inr
                    (p ∙ z ∙ sym (get-set_ne m _ sd (value_at u) λ r. d (value_inj (number k) u r)))
            ]
          ],
      λ u. get-set_ne m _ sd _ (value_ne_other (number k) u) ∙ h.1 u,
    )

    pub share-Extends :
        (m : MapStructDesc) (a : Argument) (sd : ℕ) → Extends m (share address a m sd)
    share-Extends m (of_other t) sd b s n = refl
    share-Extends m (of_struct (by_value t)) sd b s n = refl
    share-Extends m (of_struct (by_pointer t)) sd (of_struct k) s n =
        get-set_ne m _ sd _ λ q. value_ne_pointer (number k) t (sym q)
    share-Extends m (of_struct (by_pointer t)) sd (of_other u) s n = absurd s

    pub share-IsShared :
        (m : MapStructDesc) (a : Argument) (sd : ℕ)
        → IsShared m
        → get m (struct_address address a) ≡ sd
        → IsShared (share address a m sd)
    unfolding number
    share-IsShared m (of_other t) sd h e = h
    share-IsShared m (of_struct (by_value t)) sd h e = h
    share-IsShared m (of_struct (by_pointer t)) sd h e = (
      λ u.
          let v : get (set m (pointer_at t) sd) (value_at u) ≡ get m (value_at u) =
            get-set_ne m _ sd (value_at u) (λ r. value_ne_pointer u t (sym r)) in
          elim (eq_or_ne t u) [
            | inl q ↦ inr (
                ap (λ x. get (set m (pointer_at t) sd) (pointer_at x)) (sym q)
                ∙ get-set_self m (pointer_at t) sd
                ∙ sym e
                ∙ ap (λ x. get m (value_at x)) q
                ∙ sym v)
            | inr d ↦
                let p : get (set m (pointer_at t) sd) (pointer_at u) ≡ get m (pointer_at u) =
                  get-set_ne m _ sd (pointer_at u) (λ r. d (pointer_inj t u r)) in
                elim (h.0 u) [ inl z ↦ inl (p ∙ z) | inr z ↦ inr (p ∙ z ∙ sym v) ]
          ],
      λ u. get-set_ne m _ sd _ (pointer_ne_other t u) ∙ h.1 u,
    )

pub no_entries : (address : Argument → ℕ) → IsShared address new_map_struct_desc
unfolding get find
no_entries address = (λ t. inl refl, λ t. refl)
