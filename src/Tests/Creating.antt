-- ===== src/Tests/Creating.antt =====
-- Callers that create one struct's descriptor side by side.
use frugal.Base.{ℕ, zero, suc, ◌+◌, ◌*◌, ◌≡◌, ◌≢◌, refl, ap, arith, List, [], ◌∷◌}
use frugal.DescMap
use frugal.DescMap.{get}
use frugal.Prefetch.{by_value, by_pointer, number}
use frugal.Creation.{
  Argument, of_struct, of_other, returned, System, initial, enter, advance, step, Reach, here, next,
}
use frugal.Creation.Falls.{IsDone, run}
use frugal.Creation.Agreement.{Reach-same_descriptor, Reach-not_struct}
use frugal.Creation.Ends.{Reach-run_ends}

abbrev address : Argument → ℕ
address (of_struct (by_value t)) = 3 * t + 3
address (of_struct (by_pointer t)) = 3 * t + 4
address (of_other t) = 3 * t + 5

address_inj : (a b : Argument) → address a ≡ address b → a ≡ b
address_inj (of_struct (by_value t)) (of_struct (by_value u)) e =
    ap (λ x. of_struct (by_value x)) (omega arith)
address_inj (of_struct (by_value t)) (of_struct (by_pointer u)) e = absurd (omega arith)
address_inj (of_struct (by_value t)) (of_other u) e = absurd (omega arith)
address_inj (of_struct (by_pointer t)) (of_struct (by_value u)) e = absurd (omega arith)
address_inj (of_struct (by_pointer t)) (of_struct (by_pointer u)) e =
    ap (λ x. of_struct (by_pointer x)) (omega arith)
address_inj (of_struct (by_pointer t)) (of_other u) e = absurd (omega arith)
address_inj (of_other t) (of_struct (by_value u)) e = absurd (omega arith)
address_inj (of_other t) (of_struct (by_pointer u)) e = absurd (omega arith)
address_inj (of_other t) (of_other u) e = ap of_other (omega arith)

-- Caller 0 has a struct, caller 2 a value of another type, and the others pointers to that struct.
abbrev args : ℕ → Argument
args zero = of_struct (by_value 5)
args (suc (suc zero)) = of_other 1
args _ = of_struct (by_pointer 5)

-- A step of each caller of the list, the last first.
abbrev schedule : List ℕ → System
schedule [] = initial
schedule (i ∷ is) = step address args 7 i (schedule is)

schedule-Reach : (is : List ℕ) → Reach address args initial (schedule is)
schedule-Reach [] = here
schedule-Reach (i ∷ is) = next 7 i (schedule-Reach is)

-- Caller 1 meets a held lock, and finds the descriptor that caller 0 has made.
abbrev interleaved : List ℕ
interleaved = 1 ∷ 1 ∷ 2 ∷ 0 ∷ 0 ∷ 1 ∷ 0 ∷ 0 ∷ 2 ∷ 1 ∷ 0 ∷ 1 ∷ 0 ∷ []

maker_returned : (schedule interleaved).calls 0 ≡ returned 7
unfolding step advance enter DescMap.get DescMap.set DescMap.find DescMap.put number
maker_returned = refl

finder_returned : (schedule interleaved).calls 1 ≡ returned 7
unfolding step advance enter DescMap.get DescMap.set DescMap.find DescMap.put number
finder_returned = refl

-- The pointer's type has no entry then, and later callers with a pointer miss and take the lock.
pointer_not_found : get (schedule interleaved).sds (address (of_struct (by_pointer 5))) ≡ 0
unfolding step advance enter DescMap.get DescMap.set DescMap.find DescMap.put number
pointer_not_found = refl

Reach-same_descriptor_example : ◌≡◌ {A = ℕ} 7 7 × ◌≢◌ {A = ℕ} 7 0
unfolding number
Reach-same_descriptor_example =
    Reach-same_descriptor address args address_inj 0 1 7 7 (by_value 5) (by_pointer 5)
      (schedule-Reach interleaved) refl refl refl maker_returned finder_returned

Reach-not_struct_example : (schedule interleaved).calls 2 ≢ returned 7
Reach-not_struct_example =
    Reach-not_struct address args address_inj 2 7 1 (schedule-Reach interleaved) refl

Reach-run_ends_example :
    (j : ℕ) × IsDone
      ((run address args 7 1 6 (run address args 7 j 4 (schedule (1 ∷ 0 ∷ 0 ∷ [])))).calls 1)
Reach-run_ends_example = Reach-run_ends address args 7 1 (schedule-Reach (1 ∷ 0 ∷ 0 ∷ []))
