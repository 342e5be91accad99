-- ===== src/Base/Results.antt =====
-- The outcome of a call. `err` is a returned error, `panic` a Go run-time panic (an index out of
-- range), `fault` a read of memory under another type than it was written at, and `stuck` is no
-- Go outcome: a loop of the model ran out of fuel.
use Prim.Native.Nat.{ℕ}
use mathlib.Core.Path.{◌≡◌, refl, subst}
use mathlib.Core.Bool.{Bool, true, false}
use frugal.Base.Tests.{if◌then◌else◌}

-- The errors that the codec returns: those of exception.go, SyntaxError with its position and
-- TypeError of internal/defs/errors.go, those of DoResolveFields, io.ErrShortBuffer, the error of
-- `checkMapN`, and the wrappings with the struct and the field that they name.
pub data Error : Type 0 where
  depth_limit_exceeded negative_size short_buffer map_size_changed : Error
  index_out_of_range : ℕ → ℕ → Error
  size_exceeds_buffer : ℕ → ℕ → Error
  type_mismatch : ℕ → ℕ → Error
  type_mismatch_kv : ℕ → ℕ → ℕ → ℕ → Error
  required_field_not_set : ℕ → Error
  unknown_type : ℕ → Error
  skip_error : Error
  skip_field_err : ℕ → Error → Error
  field_err : ℕ → Error → Error
  syntax_error : ℕ → Error
  type_error : Error
  not_unique not_struct_pointer not_pointer nil_pointer not_pointer_to_struct : Error
  invalid_tag invalid_field_number invalid_requiredness pointer_not_optional : Error
  invalid_option nocopy_not_applicable duplicated_option : Error
  duplicated_field_id : ℕ → Error
  type_descriptor_err : Error → Error

pub data Outcome {ℓ} (A : Type ℓ) : Type ℓ where
  ok : A → Outcome A
  err : Error → Outcome A
  panic fault stuck : Outcome A

infixl 5 ◌>>=◌ ◌>>◌
abbrev pub ◌>>=◌ {ℓ κ} : {A : Type ℓ} {B : Type κ} → Outcome A → (A → Outcome B) → Outcome B
ok a >>= f = f a
err e >>= f = err e
panic >>= f = panic
fault >>= f = fault
stuck >>= f = stuck

abbrev pub ◌>>◌ {ℓ} : {B : Type ℓ} → Outcome (Unit {0}) → Outcome B → Outcome B
m >> k = m >>= λ _. k

-- `if err != nil { return ..., wrap(err) }`
abbrev pub map_err {ℓ} : {A : Type ℓ} → (Error → Error) → Outcome A → Outcome A
map_err g (ok a) = ok a
map_err g (err e) = err (g e)
map_err g panic = panic
map_err g fault = fault
map_err g stuck = stuck

-- A property of the value that a call returns, if it returns one.
abbrev pub Ensures {ℓ κ} : {A : Type ℓ} → (A → Type κ) → Outcome A → Type κ
Ensures P (ok a) = P a
Ensures P _ = Unit

pub Ensures-bind {ℓ κ μ} :
    {A : Type ℓ} {B : Type κ} (P : B → Type μ) (m : Outcome A) (f : A → Outcome B)
    → ((a : A) → m ≡ ok a → Ensures P (f a))
    → Ensures P (m >>= f)
Ensures-bind P (ok a) f h = h a refl
Ensures-bind P (err e) f h = tt
Ensures-bind P panic f h = tt
Ensures-bind P fault f h = tt
Ensures-bind P stuck f h = tt

pub Ensures-ok {ℓ κ} :
    {A : Type ℓ} (P : A → Type κ) {m : Outcome A} {a : A} → m ≡ ok a → Ensures P m → P a
Ensures-ok P e h = subst (Ensures P) e h

-- A call that does not run out of fuel, and whose result, if it returns one, has a property.
abbrev pub Runs {ℓ} : {A : Type ℓ} → (A → Type 0) → Outcome A → Type 0
Runs P (ok a) = P a
Runs P stuck = ⊥
Runs P _ = Unit

pub Runs-bind {ℓ κ} :
    {A : Type ℓ} {B : Type κ} (Q : A → Type 0) (P : B → Type 0) (m : Outcome A) (f : A → Outcome B)
    → Runs Q m
    → ((a : A) → Q a → Runs P (f a))
    → Runs P (m >>= f)
Runs-bind Q P (ok a) f q h = h a q
Runs-bind Q P (err e) f q h = tt
Runs-bind Q P panic f q h = tt
Runs-bind Q P fault f q h = tt
Runs-bind Q P stuck f q h = absurd q

pub Runs-map_err {ℓ} :
    {A : Type ℓ} (P : A → Type 0) (g : Error → Error) (m : Outcome A)
    → Runs P m
    → Runs P (map_err g m)
Runs-map_err P g (ok a) h = h
Runs-map_err P g (err e) h = tt
Runs-map_err P g panic h = tt
Runs-map_err P g fault h = tt
Runs-map_err P g stuck h = h

pub Runs-ok {ℓ} : {A : Type ℓ} (P : A → Type 0) {m : Outcome A} {a : A} → m ≡ ok a → Runs P m → P a
Runs-ok P e h = subst (Runs P) e h

pub Runs-ne-stuck {ℓ} : {A : Type ℓ} (P : A → Type 0) {m : Outcome A} → Runs P m → m ≡ stuck → ⊥
Runs-ne-stuck P h e = subst (Runs P) e h

pub Runs-weaken {ℓ} :
    {A : Type ℓ} (Q P : A → Type 0) (m : Outcome A) → Runs Q m → ((a : A) → Q a → P a) → Runs P m
Runs-weaken Q P (ok a) q h = h a q
Runs-weaken Q P (err e) q h = tt
Runs-weaken Q P panic q h = tt
Runs-weaken Q P fault q h = tt
Runs-weaken Q P stuck q h = q

pub Runs-if {ℓ} :
    {A : Type ℓ} (P : A → Type 0) (c : Bool) (x y : Outcome A)
    → Runs P x
    → Runs P y
    → Runs P (if c then x else y)
Runs-if P true x y h k = h
Runs-if P false x y h k = k

-- A call that returns: a value with a property, or an error.
abbrev pub Answers {ℓ} : {A : Type ℓ} → (A → Type 0) → Outcome A → Type 0
Answers P (ok a) = P a
Answers P (err e) = Unit
Answers P _ = ⊥

pub Answers-bind {ℓ κ} :
    {A : Type ℓ} {B : Type κ} (Q : A → Type 0) (P : B → Type 0) (m : Outcome A) (f : A → Outcome B)
    → Answers Q m
    → ((a : A) → Q a → Answers P (f a))
    → Answers P (m >>= f)
Answers-bind Q P (ok a) f q h = h a q
Answers-bind Q P (err e) f q h = tt
Answers-bind Q P panic f q h = absurd q
Answers-bind Q P fault f q h = absurd q
Answers-bind Q P stuck f q h = absurd q

pub Answers-if {ℓ} :
    {A : Type ℓ} (P : A → Type 0) (c : Bool) (x y : Outcome A)
    → (c ≡ true → Answers P x)
    → (c ≡ false → Answers P y)
    → Answers P (if c then x else y)
Answers-if P true x y h k = h refl
Answers-if P false x y h k = k refl

pub Ensures-if {ℓ κ} :
    {A : Type ℓ} (P : A → Type κ) (c : Bool) (x y : Outcome A)
    → (c ≡ true → Ensures P x)
    → (c ≡ false → Ensures P y)
    → Ensures P (if c then x else y)
Ensures-if P true x y h k = h refl
Ensures-if P false x y h k = k refl
