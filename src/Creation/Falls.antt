-- ===== src/Creation/Falls.antt =====
-- The steps that a caller of createStructDesc in internal/reflect/desc.go has before it.
use frugal.Base.{
  ℕ, zero, suc, ◌-◌, ◌≤◌, ◌≡◌, ◌⊎◌, inl, inr, refl, sym, ==_self, arith, Option, none, some,
}
use mathlib.Core.Path.{subst}
use frugal.DescMap.{get, set}
use frugal.Creation.{
  Argument, of_struct, of_other, Progress, start, missed, locked, making, made, shared, returned,
  failed, System, move, unlock, struct_address, share, enter, advance, step,
}
use frugal.Creation.Steps.{if_zero, IsInside}

-- The steps that a caller which need not wait still has before it.
unfoldable pub rank : Progress → ℕ
rank start = 6
rank missed = 5
rank locked = 4
rank making = 3
rank (made sd) = 2
rank (shared sd) = 1
rank _ = 0

abbrev pub IsDone : Progress → Type 0
IsDone (returned sd) = Unit
IsDone failed = Unit
IsDone _ = ⊥

pub rank-IsDone : (p : Progress) → rank p ≤ 0 → IsDone p
unfolding rank
rank-IsDone start h = omega arith
rank-IsDone missed h = omega arith
rank-IsDone locked h = omega arith
rank-IsDone making h = omega arith
rank-IsDone (made sd) h = omega arith
rank-IsDone (shared sd) h = omega arith
rank-IsDone (returned sd) h = tt
rank-IsDone failed h = tt

pub rank-le : (p : Progress) → rank p ≤ 6
unfolding rank
rank-le start = omega arith
rank-le missed = omega arith
rank-le locked = omega arith
rank-le making = omega arith
rank-le (made sd) = omega arith
rank-le (shared sd) = omega arith
rank-le (returned sd) = omega arith
rank-le failed = omega arith

pub inside-rank : (p : Progress) → IsInside p → rank p ≤ 4
unfolding rank
inside-rank start h = absurd h
inside-rank missed h = absurd h
inside-rank locked h = omega arith
inside-rank making h = omega arith
inside-rank (made sd) h = omega arith
inside-rank (shared sd) h = omega arith
inside-rank (returned sd) h = absurd h
inside-rank failed h = absurd h

pub IsDone-outside : (p : Progress) → IsDone p → IsInside p → ⊥
IsDone-outside start d h = h
IsDone-outside missed d h = h
IsDone-outside locked d h = d
IsDone-outside making d h = d
IsDone-outside (made sd) d h = d
IsDone-outside (shared sd) d h = d
IsDone-outside (returned sd) d h = h
IsDone-outside failed d h = h

-- The caller has the lock, or nobody has it.
abbrev pub IsFree : ℕ → System → Type 0
IsFree i s = IsInside (s.calls i) ⊎ (s.owner ≡ none)

abbrev pub Falls : ℕ → ℕ → System → Type 0
Falls i n u = (rank (u.calls i) ≤ n) × IsFree i u

Falls-at :
    (i n : ℕ) (u : System) (p : Progress)
    → u.calls i ≡ p
    → rank p ≤ n
    → IsInside p ⊎ (u.owner ≡ none)
    → Falls i n u
Falls-at i n u p e h k =
    (subst (λ q. rank q ≤ n) (sym e) h, subst (λ q. IsInside q ⊎ (u.owner ≡ none)) (sym e) k)

pub here_at : (s : System) (i : ℕ) (p : Progress) → (move s i p).calls i ≡ p
here_at s i p = rw (==_self i) refl

module _ (address : Argument → ℕ) (args : ℕ → Argument) where
  wait-Falls :
      (s : System) (i : ℕ) (o : Option ℕ)
      → o ≡ none
      → Falls i 4 (elim o [ none ↦ record (move s i locked) { owner = some i } | some j ↦ s ])
  unfolding rank
  wait-Falls s i none e =
      Falls-at i 4 (record (move s i locked) { owner = some i }) locked (here_at s i locked)
        (omega arith) (inl tt)
  wait-Falls s i (some j) e = ground arith

  enter-Falls :
      (s : System) (i : ℕ) (a : Argument) → s.owner ≡ none → Falls i 4 (enter address args a i s)
  unfolding enter rank
  enter-Falls s i (of_other t) o =
      Falls-at i 4 (move s i failed) failed (here_at s i failed) (omega arith) (inr o)
  enter-Falls s i (of_struct k) o = wait-Falls s i s.owner o

  advance-Falls :
      (new i : ℕ) (p : Progress) (s : System)
      → s.calls i ≡ p
      → IsInside p ⊎ (s.owner ≡ none)
      → Falls i (rank p - 1) (advance address args new i p s)
  unfolding advance rank
  advance-Falls new i start s e (inl h) = absurd h
  advance-Falls new i start s e (inr o) =
      if_zero (Falls i 5) (get s.sds (address (args i))) _ _
        (λ z. Falls-at i 5 (move s i missed) missed (here_at s i missed) (omega arith) (inr o))
        λ n.
          let p : Progress = returned (get s.sds (address (args i))) in
          Falls-at i 5 (move s i p) p (here_at s i p) (omega arith) (inr o)
  advance-Falls new i missed s e (inl h) = absurd h
  advance-Falls new i missed s e (inr o) = enter-Falls s i (args i) o
  advance-Falls new i locked s e f =
      if_zero (Falls i 3) (get s.sds (struct_address address (args i))) _ _
        (λ z. Falls-at i 3 (move s i making) making (here_at s i making) (omega arith) (inl tt))
        λ n.
          let p : Progress = returned (get s.sds (struct_address address (args i))) in
          Falls-at i 3 (unlock (move s i p)) p (here_at s i p) (omega arith) (inr refl)
  advance-Falls new i making s e f =
      if_zero (Falls i 2) new _ _
        (λ z.
          Falls-at i 2 (unlock (move s i failed)) failed (here_at s i failed) (omega arith)
            (inr refl))
        λ n.
          Falls-at i 2 (move s i (made new)) (made new) (here_at s i (made new)) (omega arith)
            (inl tt)
  advance-Falls new i (made sd) s e f =
      Falls-at i 1
        (record (move s i (shared sd)) { sds = set s.sds (struct_address address (args i)) sd })
        (shared sd) (here_at s i (shared sd)) (omega arith) (inl tt)
  advance-Falls new i (shared sd) s e f =
      Falls-at i 0
        (unlock (record (move s i (returned sd)) { sds = share address (args i) s.sds sd }))
        (returned sd) (here_at s i (returned sd)) (omega arith) (inr refl)
  advance-Falls new i (returned sd) s e (inl h) = absurd h
  advance-Falls new i (returned sd) s e (inr o) =
      Falls-at i 0 s (returned sd) e (omega arith) (inr o)
  advance-Falls new i failed s e (inl h) = absurd h
  advance-Falls new i failed s e (inr o) = Falls-at i 0 s failed e (omega arith) (inr o)

  -- `n` steps of one caller.
  unfoldable pub run : ℕ → ℕ → ℕ → System → System
  run new i zero s = s
  run new i (suc n) s = run new i n (step address args new i s)

  -- Each step of a caller that has the lock or need not wait for it brings it nearer to its end.
  pub run-Falls :
      (new i n : ℕ) (s : System) → IsFree i s → Falls i (rank (s.calls i) - n) (run new i n s)
  unfolding run step
  run-Falls new i zero s f = (omega arith, f)
  run-Falls new i (suc n) s f =
      let u : System = advance address args new i (s.calls i) s in
      let q : Falls i (rank (s.calls i) - 1) u = advance-Falls new i (s.calls i) s refl f in
      let r : Falls i (rank (u.calls i) - n) (run new i n u) = run-Falls new i n u q.1 in
      (omega (arith, q.0, r.0), r.1)
