-- ===== src/Creation/Held.antt =====
-- The holder of the lock sdsmu in internal/reflect/desc.go is in the part of createStructDesc behind
-- Lock.
use frugal.Base.{
  ℕ, ◌≡◌, ◌≢◌, inl, inr, refl, sym, ap, ◌∙◌, ==_ne, eq_or_ne, arith, Option, none, some,
}
use mathlib.Core.Path.{subst}
use frugal.DescMap.{get, set}
use frugal.Creation.{
  Argument, of_struct, of_other, Progress, start, missed, locked, making, made, shared, returned,
  failed, System, initial, move, unlock, struct_address, share, enter, advance, step, Reach, here,
  next,
}
use frugal.Creation.Steps.{if_zero, IsInside}
use frugal.Creation.Falls.{here_at}

-- Whoever has the lock is inside.
abbrev pub IsHeld : System → Type 0
IsHeld s = (j : ℕ) → s.owner ≡ some j → IsInside (s.calls j)

module _ (address : Argument → ℕ) (args : ℕ → Argument) where
  -- The steps of one caller do not move another.
  elsewhere : (s : System) (i j : ℕ) (p : Progress) → j ≢ i → (move s i p).calls j ≡ s.calls j
  elsewhere s i j p n = rw (==_ne j i n) refl

  abbrev Leaves : ℕ → System → System → Type 0
  Leaves j s u = u.calls j ≡ s.calls j

  wait-Leaves :
      (s : System) (i j : ℕ) (o : Option ℕ)
      → j ≢ i
      → Leaves j s (elim o [ none ↦ record (move s i locked) { owner = some i } | some k ↦ s ])
  wait-Leaves s i j none n = elsewhere s i j locked n
  wait-Leaves s i j (some k) n = refl

  enter-Leaves :
      (s : System) (i j : ℕ) (a : Argument) → j ≢ i → Leaves j s (enter address args a i s)
  unfolding enter
  enter-Leaves s i j (of_other t) n = elsewhere s i j failed n
  enter-Leaves s i j (of_struct k) n = wait-Leaves s i j s.owner n

  advance-Leaves :
      (new i j : ℕ) (p : Progress) (s : System)
      → j ≢ i
      → Leaves j s (advance address args new i p s)
  unfolding advance enter
  advance-Leaves new i j start s n =
      if_zero (Leaves j s) (get s.sds (address (args i))) _ _ (λ z. elsewhere s i j missed n)
        λ z. elsewhere s i j (returned _) n
  advance-Leaves new i j missed s n = enter-Leaves s i j (args i) n
  advance-Leaves new i j locked s n =
      if_zero (Leaves j s) (get s.sds (struct_address address (args i))) _ _
        (λ z. elsewhere s i j making n) λ z. elsewhere s i j (returned _) n
  advance-Leaves new i j making s n =
      if_zero (Leaves j s) new _ _ (λ z. elsewhere s i j failed n) λ z. elsewhere s i j (made new) n
  advance-Leaves new i j (made sd) s n = elsewhere s i j (shared sd) n
  advance-Leaves new i j (shared sd) s n = elsewhere s i j (returned sd) n
  advance-Leaves new i j (returned sd) s n = refl
  advance-Leaves new i j failed s n = refl

  -- Whoever has the lock after a step is inside: the caller that took it, or had it and goes on, or
  -- another, which had it before.
  IsHeld-after :
      (s u : System) (i : ℕ)
      → IsHeld s
      → ((j : ℕ) → j ≢ i → Leaves j s u)
      → (u.owner ≡ some i → IsInside (u.calls i))
      → ((j : ℕ) → j ≢ i → u.owner ≡ some j → s.owner ≡ some j)
      → IsHeld u
  IsHeld-after s u i h l a b j q = elim (eq_or_ne j i) [
    | inl e ↦ subst (λ x. IsInside (u.calls x)) (sym e) (a (q ∙ ap some e))
    | inr n ↦ subst IsInside (sym (l j n)) (h j (b j n q))
  ]

  abbrev Locks : ℕ → System → System → Type 0
  Locks i s u =
      (u.owner ≡ some i → IsInside (u.calls i))
      × ((j : ℕ) → j ≢ i → u.owner ≡ some j → s.owner ≡ some j)

  outside_Locks :
      (s : System) (i : ℕ) (p : Progress)
      → IsHeld s
      → (IsInside (s.calls i) → ⊥)
      → Locks i s (move s i p)
  outside_Locks s i p h n = (λ q. absurd (n (h i q)), λ j d q. q)

  inside_Locks :
      (s u : System) (i : ℕ) (p : Progress)
      → u.calls i ≡ p
      → IsInside p
      → u.owner ≡ s.owner
      → Locks i s u
  inside_Locks s u i p e k o = (λ q. subst IsInside (sym e) k, λ j d q. sym o ∙ q)

  unlock_Locks : (s u : System) (i : ℕ) → u.owner ≡ none → Locks i s u
  unlock_Locks s u i o = (λ q. ground arith, λ j d q. ground arith)

  wait_Locks :
      (s : System) (i : ℕ) (o : Option ℕ)
      → IsHeld s
      → Locks i s (elim o [ none ↦ record (move s i locked) { owner = some i } | some k ↦ s ])
  wait_Locks s i none h = (λ q. subst IsInside (sym (here_at s i locked)) tt, λ j d q. ground arith)
  wait_Locks s i (some k) h = (h i, λ j d q. q)

  enter-Locks :
      (s : System) (i : ℕ) (a : Argument)
      → IsHeld s
      → (IsInside (s.calls i) → ⊥)
      → Locks i s (enter address args a i s)
  unfolding enter
  enter-Locks s i (of_other t) h n = outside_Locks s i failed h n
  enter-Locks s i (of_struct k) h n = wait_Locks s i s.owner h

  advance-Locks :
      (new i : ℕ) (p : Progress) (s : System)
      → s.calls i ≡ p
      → IsHeld s
      → Locks i s (advance address args new i p s)
  unfolding advance
  advance-Locks new i start s e h =
      let n : IsInside (s.calls i) → ⊥ = λ k. subst IsInside e k in
      if_zero (Locks i s) (get s.sds (address (args i))) _ _ (λ z. outside_Locks s i missed h n)
        λ z. outside_Locks s i (returned _) h n
  advance-Locks new i missed s e h = enter-Locks s i (args i) h λ k. subst IsInside e k
  advance-Locks new i locked s e h =
      if_zero (Locks i s) (get s.sds (struct_address address (args i))) _ _
        (λ z. inside_Locks s (move s i making) i making (here_at s i making) tt refl)
        λ z. unlock_Locks s (unlock (move s i (returned _))) i refl
  advance-Locks new i making s e h =
      if_zero (Locks i s) new _ _ (λ z. unlock_Locks s (unlock (move s i failed)) i refl)
        λ z. inside_Locks s (move s i (made new)) i (made new) (here_at s i (made new)) tt refl
  advance-Locks new i (made sd) s e h =
      inside_Locks s
        (record (move s i (shared sd)) { sds = set s.sds (struct_address address (args i)) sd }) i
        (shared sd) (here_at s i (shared sd)) tt refl
  advance-Locks new i (shared sd) s e h =
      unlock_Locks s
        (unlock (record (move s i (returned sd)) { sds = share address (args i) s.sds sd })) i refl
  advance-Locks new i (returned sd) s e h = (h i, λ j d q. q)
  advance-Locks new i failed s e h = (h i, λ j d q. q)

  pub Reach-IsHeld : {s : System} → Reach address args initial s → IsHeld s
  unfolding step
  Reach-IsHeld here = λ j q. ground arith
  Reach-IsHeld (next {t} new i r) =
      let h : IsHeld t = Reach-IsHeld r in
      let k : Locks i t (advance address args new i (t.calls i) t) =
        advance-Locks new i (t.calls i) t refl h in
      IsHeld-after t (advance address args new i (t.calls i) t) i h
        (λ j n. advance-Leaves new i j (t.calls i) t n) k.0 k.1
