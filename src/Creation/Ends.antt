-- ===== src/Creation/Ends.antt =====
-- The callers of getOrcreateStructDesc in internal/reflect/desc.go come to an end.
use frugal.Base.{ℕ, ◌-◌, ◌≡◌, inl, inr, arith, none, Option-cases}
use frugal.Creation.{Argument, System, initial, Reach}
use frugal.Creation.Steps.{IsInside}
use frugal.Creation.Falls.{
  IsFree, Falls, IsDone, rank, rank-le, rank-IsDone, inside-rank, IsDone-outside, run, run-Falls,
}
use frugal.Creation.Held.{Reach-IsHeld}

module _ (address : Argument → ℕ) (args : ℕ → Argument) where
  run_free : (new i : ℕ) (s : System) → IsFree i s → IsDone ((run address args new i 6 s).calls i)
  run_free new i s f =
      let q : Falls i (rank (s.calls i) - 6) (run address args new i 6 s) =
        run-Falls address args new i 6 s f in
      rank-IsDone ((run address args new i 6 s).calls i) (omega (arith, q.0, rank-le (s.calls i)))

  run_held :
      (new j : ℕ) (s : System) → IsInside (s.calls j) → (run address args new j 4 s).owner ≡ none
  run_held new j s k =
      let q : Falls j (rank (s.calls j) - 4) (run address args new j 4 s) =
        run-Falls address args new j 4 s (inl k) in
      elim q.1 [
        | inl h ↦ absurd (
            IsDone-outside ((run address args new j 4 s).calls j)
              (rank-IsDone ((run address args new j 4 s).calls j)
                (omega (arith, q.0, inside-rank (s.calls j) k)))
              h)
        | inr o ↦ o
      ]

  -- In every interleaving there is a caller whose next four steps, after which a given caller's next
  -- six, end the latter's call with a descriptor or an error, whatever newStructDescAndPrefetch
  -- gives: no caller waits for a lock that is never free.
  pub Reach-run_ends :
      {s : System} (new i : ℕ)
      → Reach address args initial s
      → (j : ℕ) × IsDone ((run address args new i 6 (run address args new j 4 s)).calls i)
  Reach-run_ends {s} new i r = elim (Option-cases s.owner) [
    | inl e ↦ (
      i,
      run_free new i (run address args new i 4 s) (run-Falls address args new i 4 s (inr e)).1,
    )
    | inr e ↦ (
      e.0,
      run_free new i (run address args new e.0 4 s)
          (inr (run_held new e.0 s (Reach-IsHeld address args r e.0 e.1))),
    )
  ]
