-- ===== src/Creation.antt =====
-- The descriptors' creation under a lock, with callers side by side: getOrcreateStructDesc and
-- createStructDesc of internal/reflect/desc.go, and the calls of getStructDesc and createStructDesc
-- at the head of EncodedSize and Append of internal/reflect/reflect.go. A step runs one caller up to
-- its next access to what callers share: the map sds and the lock sdsmu.
pub mod Maps
pub mod Steps
pub mod Agreement
pub mod Falls
pub mod Held
pub mod Ends
use frugal.Base.{ℕ, Bool, Option, none, some, ◌==◌, if◌then◌else◌}
use frugal.DescMap.{MapStructDesc, new_map_struct_desc, get, set}
use frugal.Prefetch.{StructType, by_value, by_pointer, number}

-- The type of the value that a caller has: a struct or a pointer to one, or any other, by number.
pub data Argument : Type 0 where
  of_struct : StructType → Argument
  of_other : ℕ → Argument

-- How far a call has come. A descriptor is its address, and nil is 0.
pub data Progress : Type 0 where
  -- before getStructDesc
  start : Progress
  -- after a miss, before the checks and the lock
  missed : Progress
  -- with the lock, before the second look
  locked : Progress
  -- with the lock, in newStructDescAndPrefetch
  making : Progress
  -- with the lock, before the Set of the struct's type
  made : ℕ → Progress
  -- with the lock, before the Set of the pointer's type, if the caller has a pointer
  shared : ℕ → Progress
  -- returned, with a descriptor or an error
  returned : ℕ → Progress
  failed : Progress

pub record System : Type 0 where
  pub sds : MapStructDesc
  -- who holds sdsmu
  pub owner : Option ℕ
  pub calls : ℕ → Progress

abbrev pub initial : System
initial = record { sds = new_map_struct_desc; owner = none; calls = λ i. start }

abbrev pub move : System → ℕ → Progress → System
move s i p = record s { calls = λ j. if j == i then p else s.calls j }

abbrev pub unlock : System → System
unlock s = record s { owner = none }

-- `address` is rvTypePtr and rtTypePtr.
module _ (address : Argument → ℕ) where
  -- The struct's type, and what Get finds for it. The type of a caller with the lock is a struct's or
  -- a pointer's.
  abbrev pub struct_address : Argument → ℕ
  struct_address (of_struct k) = address (of_struct (by_value (number k)))
  struct_address (of_other t) = address (of_other t)

  -- `if rv.Kind() == reflect.Ptr { sds.Set(rvTypePtr(rv), sd) }`
  abbrev pub share : Argument → MapStructDesc → ℕ → MapStructDesc
  share (of_struct (by_pointer t)) m sd = set m (address (of_struct (by_pointer t))) sd
  share _ m sd = m

  -- `args` are the callers' types.
  module _ (args : ℕ → Argument) where
    -- createStructDesc up to the lock. A caller waits as long as the lock is held.
    unfoldable pub enter : Argument → ℕ → System → System
    enter (of_other t) i s = move s i failed
    enter (of_struct k) i s = elim s.owner [
      | none ↦ record (move s i locked) { owner = some i }
      | some j ↦ s
    ]

    -- A step of caller `i` that has come so far; `new` is what newStructDescAndPrefetch gives, nil for
    -- an error.
    unfoldable pub advance : ℕ → ℕ → Progress → System → System
    advance new i start s =
        let sd = get s.sds (address (args i)) in
        if sd == 0 then move s i missed else move s i (returned sd)
    advance new i missed s = enter (args i) i s
    advance new i locked s =
        let sd = get s.sds (struct_address (args i)) in
        if sd == 0 then move s i making else unlock (move s i (returned sd))
    advance new i making s = if new == 0 then unlock (move s i failed) else move s i (made new)
    advance new i (made sd) s = record (move s i (shared sd)) {
      sds = set s.sds (struct_address (args i)) sd;
    }
    advance new i (shared sd) s =
        unlock (record (move s i (returned sd)) { sds = share (args i) s.sds sd })
    advance new i (returned sd) s = s
    advance new i failed s = s

    unfoldable pub step : ℕ → ℕ → System → System
    step new i s = advance new i (s.calls i) s

    -- What any interleaving of steps leads to.
    pub data Reach (s : System) : System → Type 0 where
      here : Reach s s
      next : {t : System} (new i : ℕ) → Reach s t → Reach s (step new i t)
