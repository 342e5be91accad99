-- ===== src/Child.antt =====
-- What the codec finds at an address: the value there, and the functions of its type that walk on
-- into it. `func` is t.AppendFunc called at the address, `deref` the same at the address that the
-- pointer there holds; `size_func` is t.EncodedSizeFunc at the address, and `base_size` is
-- EncodedSize where the address is that of a struct.
use frugal.Base.{ℕ, ◌%◌, ◌^◌, Bool, true, false, ◌&&◌, ◌||◌}
use frugal.Base.{[], ◌∷◌, Option, none, some, Outcome, ok, panic, fault, ◌>>=◌, ltb, ◌==◌}
use frugal.Types.{DefType, TType, bool_t, byte_t, double_t, i16_t, i32_t, i64_t, string_t, enum_t}
use frugal.Value.{Val, num, str, nil, ptr}
use frugal.Wire.{Buf}
use mathlib.Core.Bool.{not}

abbrev pub AppendFunc : Type 0
AppendFunc = DefType → Buf → Outcome Buf

pub record Child : Type 0 where
  pub val : Val
  pub func : AppendFunc
  pub deref : AppendFunc
  pub size_func : DefType → Outcome ℕ
  pub base_size : DefType → Outcome ℕ

-- A read at an offset at which nothing lies is a fault.
abbrev pub at_child {ℓ} : {A : Type ℓ} → Option Child → (Child → Outcome A) → Outcome A
at_child none f = fault
at_child (some c) f = f c

-- The words in memory: `*(*uintN)(p)` and `*(*string)(p)`. A nil []byte reads as "".
abbrev pub as_num : Val → Outcome ℕ
as_num (num n) = ok n
as_num _ = fault

abbrev pub as_str : Val → Outcome Buf
as_str (str s) = ok s
as_str nil = ok []
as_str _ = fault

-- `*(*unsafe.Pointer)(p)`, then a read through it.
abbrev pub load : Val → Outcome Val
load (ptr w) = ok w
load nil = panic
load _ = fault

-- `*(*unsafe.Pointer)(p) == nil`
abbrev pub is_nil : Val → Bool
is_nil nil = true
is_nil _ = false

unfoldable pub bytes_eq : Buf → Buf → Bool
bytes_eq [] [] = true
bytes_eq (x ∷ xs) (y ∷ ys) = x == y && bytes_eq xs ys
bytes_eq _ _ = false

-- `==` on float64, over the bit patterns: a NaN equals nothing, and the two zeros are equal.
unfoldable pub f64_eq : ℕ → ℕ → Bool
f64_eq a b = not (is_nan a) && ((a == b) || (a % 2 ^ 63 == 0 && b % 2 ^ 63 == 0))
  where
    is_nan : ℕ → Bool
    is_nan x = ltb 0x7ff0_0000_0000_0000 (x % 2 ^ 63)

unfoldable pub equal_num : (ℕ → ℕ → Bool) → Val → Val → Outcome Bool
equal_num eq p q = do a ← as_num p; b ← as_num q; ok (eq a b)

-- (*tType).Equal
unfoldable pub equal : TType → Val → Val → Outcome Bool
unfolding equal_num
equal bool_t p q = equal_num ◌==◌ p q
equal byte_t p q = equal_num ◌==◌ p q
equal double_t p q = equal_num f64_eq p q
equal i16_t p q = equal_num ◌==◌ p q
equal i32_t p q = equal_num ◌==◌ p q
equal i64_t p q = equal_num ◌==◌ p q
equal enum_t p q = equal_num ◌==◌ p q
equal string_t p q = do a ← as_str p; b ← as_str q; ok (bytes_eq a b)
equal _ p q = ok false
