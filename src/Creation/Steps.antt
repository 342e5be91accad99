-- ===== src/Creation/Steps.antt =====
-- The invariant of the callers of getOrcreateStructDesc in internal/reflect/desc.go.
use frugal.Base.{
  ℕ, ◌≡◌, ◌≢◌, inl, inr, refl, sym, ◌∙◌, ◌==◌, ==_self, ==_iff, ==_ne, eq_or_ne, arith,
  if◌then◌else◌, Option, none, some,
}
use mathlib.Core.Path.{subst}
use frugal.DescMap.{MapStructDesc, get, set}
use frugal.Creation.{
  Argument, of_struct, of_other, Progress, start, missed, locked, making, made, shared, returned,
  failed, System, initial, move, struct_address, share, enter, advance, step, Reach, here, next,
}
use frugal.Creation.Maps.{
  IsStruct, IsShared, Extends, found-IsStruct, set_struct-Extends, set_struct-IsShared,
  share-Extends, share-IsShared, get-set_self, no_entries,
}

-- A caller that has the lock.
abbrev pub IsInside : Progress → Type 0
IsInside locked = Unit
IsInside making = Unit
IsInside (made sd) = Unit
IsInside (shared sd) = Unit
IsInside _ = ⊥

pub if_zero {ℓ} :
    {A : Type ℓ} (P : A → Type 0) (n : ℕ) (x y : A)
    → (n ≡ 0 → P x)
    → (n ≢ 0 → P y)
    → P (if n == 0 then x else y)
if_zero P n x y h k = elim (eq_or_ne n 0) [
  | inl e ↦ subst (λ b. P (if b then x else y)) (sym ((==_iff n 0).1 e)) (h e)
  | inr d ↦ subst (λ b. P (if b then x else y)) (sym (==_ne n 0 d)) (k d)
]

module _ (address : Argument → ℕ) (args : ℕ → Argument) where
  abbrev entry : MapStructDesc → ℕ → ℕ
  entry m i = get m (struct_address address (args i))

  -- What is true of a caller that has come so far, of the lock and of the map.
  unfoldable pub IsAt : Option ℕ → MapStructDesc → ℕ → Progress → Type 0
  IsAt o m i locked = (o ≡ some i) × IsStruct (args i)
  IsAt o m i making = (o ≡ some i) × IsStruct (args i) × (entry m i ≡ 0)
  IsAt o m i (made sd) = (o ≡ some i) × IsStruct (args i) × (entry m i ≡ 0) × (sd ≢ 0)
  IsAt o m i (shared sd) = (o ≡ some i) × IsStruct (args i) × (entry m i ≡ sd) × (sd ≢ 0)
  IsAt o m i (returned sd) = IsStruct (args i) × (entry m i ≡ sd) × (sd ≢ 0)
  IsAt o m i _ = Unit

  abbrev pub IsSound : System → Type 0
  IsSound s = ((i : ℕ) → IsAt s.owner s.sds i (s.calls i)) × IsShared address s.sds

  -- A caller without the lock, while another changes the lock or the map.
  IsAt-other :
      (o o' : Option ℕ) (m m' : MapStructDesc) (j : ℕ) (p : Progress)
      → o ≢ some j
      → Extends address m m'
      → IsAt o m j p
      → IsAt o' m' j p
  unfolding IsAt
  IsAt-other o o' m m' j start n x h = tt
  IsAt-other o o' m m' j missed n x h = tt
  IsAt-other o o' m m' j locked n x h = absurd (n h.0)
  IsAt-other o o' m m' j making n x h = absurd (n h.0)
  IsAt-other o o' m m' j (made sd) n x h = absurd (n h.0)
  IsAt-other o o' m m' j (shared sd) n x h = absurd (n h.0)
  IsAt-other o o' m m' j (returned sd) n x h =
      (h.0, x (args j) h.0 (λ q. h.2 (sym h.1 ∙ q)) ∙ h.1, h.2)
  IsAt-other o o' m m' j failed n x h = tt

  Extends-refl : (m : MapStructDesc) → Extends address m m
  Extends-refl m a s n = refl

  -- One caller moves, and the others see the new lock and map.
  moved_all :
      (s : System) (o : Option ℕ) (m : MapStructDesc) (i : ℕ) (p : Progress)
      → IsAt o m i p
      → ((j : ℕ) → j ≢ i → IsAt o m j (s.calls j))
      → (j : ℕ) → IsAt o m j (if j == i then p else s.calls j)
  moved_all s o m i p h k j = elim (eq_or_ne j i) [
    | inl e ↦ rw (e, ==_self i) h
    | inr n ↦ rw (==_ne j i n) (k j n)
  ]

  -- A caller that does not touch the lock or the map.
  move-IsSound :
      (s : System) (i : ℕ) (p : Progress)
      → IsSound s
      → IsAt s.owner s.sds i p
      → IsSound (move s i p)
  move-IsSound s i p h a = (moved_all s s.owner s.sds i p a (λ j n. h.0 j), h.1)

  not_owner : (o : Option ℕ) (i j : ℕ) → o ≡ some i → j ≢ i → o ≢ some j
  not_owner o i j e n q = ground arith

  -- A caller with the lock.
  owner_move-IsSound :
      (s : System) (o : Option ℕ) (m : MapStructDesc) (i : ℕ) (p : Progress)
      → IsSound s
      → s.owner ≡ some i
      → IsAt o m i p
      → Extends address s.sds m
      → IsShared address m
      → IsSound (record (move s i p) { owner = o; sds = m })
  owner_move-IsSound s o m i p h e a x k = (
    moved_all s o m i p a
        (λ j n. IsAt-other s.owner o s.sds m j (s.calls j) (not_owner s.owner i j e n) x (h.0 j)),
    k,
  )

  module _ (inj : (a b : Argument) → address a ≡ address b → a ≡ b) where
    wait-IsSound :
        (s : System) (i : ℕ) (o : Option ℕ)
        → s.owner ≡ o
        → IsStruct (args i)
        → IsSound s
        → IsSound (elim o [ none ↦ record (move s i locked) { owner = some i } | some j ↦ s ])
    unfolding IsAt
    wait-IsSound s i none e t h =
        let free : (j : ℕ) → s.owner ≢ some j = λ j q. ground arith in
        (
          moved_all s (some i) s.sds i locked (refl, t)
              (λ j n.
                IsAt-other s.owner (some i) s.sds s.sds j (s.calls j) (free j) (Extends-refl s.sds)
                  (h.0 j)),
          h.1,
        )
    wait-IsSound s i (some j) e t h = h

    enter-IsSound :
        (s : System) (i : ℕ) (a : Argument)
        → args i ≡ a
        → IsSound s
        → IsSound (enter address args a i s)
    unfolding enter IsAt
    enter-IsSound s i (of_other t) q h = move-IsSound s i failed h tt
    enter-IsSound s i (of_struct k) q h =
        wait-IsSound s i s.owner refl (subst IsStruct (sym q) tt) h

    advance-IsSound :
        (new i : ℕ) (p : Progress) (s : System)
        → IsAt s.owner s.sds i p
        → IsSound s
        → IsSound (advance address args new i p s)
    unfolding advance IsAt
    advance-IsSound new i start s a h =
        if_zero IsSound (get s.sds (address (args i))) _ _ (λ e. move-IsSound s i missed h tt)
          λ n. move-IsSound s i (returned (get s.sds (address (args i)))) h (
            (found-IsStruct address s.sds (args i) h.1 n).0,
            (found-IsStruct address s.sds (args i) h.1 n).1,
            n,
          )
    advance-IsSound new i missed s a h = enter-IsSound s i (args i) refl h
    advance-IsSound new i locked s a h =
        if_zero IsSound (entry s.sds i) _ _ (λ e. move-IsSound s i making h (a.0, a.1, e))
          λ n.
            owner_move-IsSound s none s.sds i (returned (entry s.sds i)) h a.0 (a.1, refl, n)
              (Extends-refl s.sds) h.1
    advance-IsSound new i making s a h =
        if_zero IsSound new _ _
          (λ e. owner_move-IsSound s none s.sds i failed h a.0 tt (Extends-refl s.sds) h.1)
          λ n. move-IsSound s i (made new) h (a.0, a.1, a.2, n)
    advance-IsSound new i (made sd) s a h =
        owner_move-IsSound s s.owner (set s.sds (struct_address address (args i)) sd) i (shared sd)
          h a.0 (a.0, a.1, get-set_self s.sds (struct_address address (args i)) sd, a.3)
          (set_struct-Extends address inj s.sds (struct_address address (args i)) sd a.2)
          (set_struct-IsShared address inj s.sds (args i) sd a.1 h.1 a.2)
    advance-IsSound new i (shared sd) s a h =
        owner_move-IsSound s none (share address (args i) s.sds sd) i (returned sd) h a.0
          (
            a.1,
            share-Extends address inj s.sds (args i) sd (args i) a.1 (λ q. a.3 (sym a.2 ∙ q)) ∙ a.2,
            a.3,
          )
          (share-Extends address inj s.sds (args i) sd)
          (share-IsShared address inj s.sds (args i) sd h.1 a.2)
    advance-IsSound new i (returned sd) s a h = h
    advance-IsSound new i failed s a h = h

    pub Reach-IsSound : {s t : System} → Reach address args s t → IsSound s → IsSound t
    unfolding step
    Reach-IsSound here h = h
    Reach-IsSound (next {t} new i r) h =
        advance-IsSound new i (t.calls i) t ((Reach-IsSound r h).0 i) (Reach-IsSound r h)

    pub initial-IsSound : IsSound initial
    unfolding IsAt
    initial-IsSound = (λ i. tt, no_entries address)
