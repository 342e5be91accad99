-- ===== src/Base/Bits.antt =====
-- The bits of a word at variables: laws of `bit_and` and `bit_or` with a single bit, and of
-- `bit_and` with the masks of alignments.
use Prim.Native.Nat.{ℕ, zero, suc, ◌+◌, ◌-◌, ◌*◌, ◌/◌, ◌%◌, ◌^◌, ◌≤◌, ◌<◌, min, max}
use Prim.Native.Nat.{bit_and, bit_or, digits, bit_and-bitwise, bit_or-bitwise}
use mathlib.Core.Path.{◌≡◌, refl, sym, ap, ◌∙◌}
use mathlib.Core.Logic.{◌≢◌, inl, inr}
use native.Mathlib.Omega.{arith}
use native.Mathlib.Nat.{pow-suc, mul_assoc}
use frugal.Base.Tests.{eq_or_ne}

-- Induction from the half of a number to the number.
halving_below {ℓ} :
    (P : ℕ → Type ℓ) → P 0 → ((a : ℕ) → P (suc a / 2) → P (suc a)) → (n a : ℕ) → a ≤ n → P a
halving_below P base step n zero h = base
halving_below P base step zero (suc a) h = absurd (omega arith)
halving_below P base step (suc n) (suc a) h =
    step a (halving_below P base step n (suc a / 2) (omega arith))

by_halving {ℓ} : (P : ℕ → Type ℓ) → P 0 → ((a : ℕ) → P (suc a / 2) → P (suc a)) → (a : ℕ) → P a
by_halving P base step a = halving_below P base step a a (omega arith)

-- A count of digits beyond the number's own changes nothing.
module _ (out : ℕ → ℕ) (op : ℕ → ℕ → ℕ) where
  one_to_spare : (n a b : ℕ) → a ≤ n → digits out op (suc n) a b ≡ digits out op n a b
  one_to_spare zero zero b h = refl
  one_to_spare (suc n) zero b h = refl
  one_to_spare zero (suc a) b h = absurd (omega arith)
  one_to_spare (suc n) (suc a) b h =
      ap (λ r. r * 2 + op (suc a % 2) (b % 2)) (one_to_spare n (suc a / 2) (b / 2) (omega arith))

  enough_digits : (n a b : ℕ) → a ≤ n → digits out op n a b ≡ digits out op a a b
  enough_digits zero zero b h = refl
  enough_digits zero (suc a) b h = absurd (omega arith)
  enough_digits (suc n) a b h = elim (eq_or_ne a (suc n)) [
    | inl e ↦ rw e
    | inr d ↦ let l : a ≤ n = omega (arith, h, d) in one_to_spare n a b l ∙ enough_digits n a b l
  ]

bit_and-head :
    (a b : ℕ) → bit_and (suc a) b ≡ bit_and (suc a / 2) (b / 2) * 2 + min (suc a % 2) (b % 2)
bit_and-head a b =
    let half = suc a / 2 in
    bit_and-bitwise (suc a) b
    ∙ ap (λ r. r * 2 + min (suc a % 2) (b % 2))
        (enough_digits (λ y. 0) min a half (b / 2) (omega arith)
          ∙ sym (bit_and-bitwise half (b / 2)))

bit_or-head :
    (a b : ℕ) → bit_or (suc a) b ≡ bit_or (suc a / 2) (b / 2) * 2 + max (suc a % 2) (b % 2)
bit_or-head a b =
    let half = suc a / 2 in
    bit_or-bitwise (suc a) b
    ∙ ap (λ r. r * 2 + max (suc a % 2) (b % 2))
        (enough_digits (λ y. y) max a half (b / 2) (omega arith)
          ∙ sym (bit_or-bitwise half (b / 2)))

bit_and_step : (a b : ℕ) → bit_and a b ≡ bit_and (a / 2) (b / 2) * 2 + min (a % 2) (b % 2)
bit_and_step zero b = omega (arith, bit_and-bitwise 0 b, bit_and-bitwise 0 (b / 2))
bit_and_step (suc a) b = bit_and-head a b

bit_or_step : (a b : ℕ) → bit_or a b ≡ bit_or (a / 2) (b / 2) * 2 + max (a % 2) (b % 2)
bit_or_step zero b = omega (arith, bit_or-bitwise 0 b, bit_or-bitwise 0 (b / 2))
bit_or_step (suc a) b = bit_or-head a b

-- No bit beyond those of either number.
bit_and-le : (b a : ℕ) → bit_and a b ≤ a
bit_and-le b a =
    by_halving (λ a. (b : ℕ) → bit_and a b ≤ a) (λ b. omega (arith, bit_and-bitwise 0 b))
      (λ a rest b. omega (arith, bit_and-head a b, rest (b / 2))) a b

pub bit_and-le_mask : (a b : ℕ) → bit_and a b ≤ b
bit_and-le_mask =
    by_halving (λ a. (b : ℕ) → bit_and a b ≤ b) (λ b. omega (arith, bit_and-bitwise 0 b))
      (λ a rest b. omega (arith, bit_and-head a b, rest (b / 2)))

bit_or-zero : (a : ℕ) → bit_or a 0 ≡ a
bit_or-zero =
    by_halving (λ a. bit_or a 0 ≡ a) (bit_or-bitwise 0 0)
      (λ a rest. omega (arith, bit_or-head a 0, rest))

-- The masks of the alignments.
pub bit_and_no_mask : (a : ℕ) → bit_and a 0 ≡ 0
bit_and_no_mask a = omega (arith, bit_and-le_mask a 0)

pub bit_and-one : (a : ℕ) → bit_and a 1 ≡ a % 2
bit_and-one a = omega (arith, bit_and_step a 1, bit_and_no_mask (a / 2))

pub bit_and_three : (a : ℕ) → bit_and a 3 ≡ a % 4
bit_and_three a = omega (arith, bit_and_step a 3, bit_and-one (a / 2))

pub bit_and_seven : (a : ℕ) → bit_and a 7 ≡ a % 8
bit_and_seven a = omega (arith, bit_and_step a 7, bit_and_three (a / 2))

half_pow : (y : ℕ) → 2 ^ suc y / 2 ≡ 2 ^ y
half_pow y = omega (arith, pow-suc 2 y)

-- Bit y of a word.
unfoldable pub nth_bit : ℕ → ℕ → ℕ
nth_bit zero a = a % 2
nth_bit (suc y) a = nth_bit y (a / 2)

pub nth_bit-lt : (y a : ℕ) → nth_bit y a < 2
unfolding nth_bit
nth_bit-lt zero a = omega arith
nth_bit-lt (suc y) a = nth_bit-lt y (a / 2)

-- `a & (1 << y)`
pub bit_and-pow : (y a : ℕ) → bit_and a (2 ^ y) ≡ nth_bit y a * 2 ^ y
unfolding nth_bit
bit_and-pow zero a = omega (arith, bit_and-one a)
bit_and-pow (suc y) a =
    let halved : bit_and (a / 2) (2 ^ suc y / 2) ≡ nth_bit y (a / 2) * 2 ^ y =
      ap (bit_and (a / 2)) (half_pow y) ∙ bit_and-pow y (a / 2) in
    omega (arith, pow-suc 2 y, bit_and_step a (2 ^ suc y), halved, doubled)
  where
    doubled : nth_bit y (a / 2) * 2 ^ suc y ≡ nth_bit y (a / 2) * 2 ^ y * 2
    doubled = rw (pow-suc 2 y, mul_assoc (nth_bit y (a / 2)) (2 ^ y) 2)

set_step : (y a : ℕ) → bit_or a (2 ^ suc y) / 2 ≡ bit_or (a / 2) (2 ^ y)
set_step y a = omega (arith, bit_or_step a (2 ^ suc y), ap (bit_or (a / 2)) (half_pow y))

-- Bit z of `a | (1 << y)`, at the bit set and at the others.
pub nth_bit-bit_or_self : (y a : ℕ) → nth_bit y (bit_or a (2 ^ y)) ≡ 1
unfolding nth_bit
nth_bit-bit_or_self zero a = omega (arith, bit_or_step a 1)
nth_bit-bit_or_self (suc y) a = rw (set_step y a) (nth_bit-bit_or_self y (a / 2))

pub nth_bit-bit_or_ne : (y z a : ℕ) → y ≢ z → nth_bit z (bit_or a (2 ^ y)) ≡ nth_bit z a
unfolding nth_bit
nth_bit-bit_or_ne zero zero a h = absurd (h refl)
nth_bit-bit_or_ne zero (suc z) a h =
    ap (nth_bit z) (omega (arith, bit_or_step a 1, bit_or-zero (a / 2)))
nth_bit-bit_or_ne (suc y) zero a h = omega (arith, pow-suc 2 y, bit_or_step a (2 ^ suc y))
nth_bit-bit_or_ne (suc y) (suc z) a h =
    rw (set_step y a) (nth_bit-bit_or_ne y z (a / 2) (λ e. h (ap suc e)))

-- Bit z of `a &^ (1 << y)`, at the bit cleared and at the others.
clear_step : (y a : ℕ) → (a - bit_and a (2 ^ suc y)) / 2 ≡ a / 2 - bit_and (a / 2) (2 ^ y)
clear_step y a = omega (arith, pow-suc 2 y, bit_and_step a (2 ^ suc y), inner)
  where
    inner : bit_and (a / 2) (2 ^ suc y / 2) ≡ bit_and (a / 2) (2 ^ y)
    inner = ap (bit_and (a / 2)) (half_pow y)

pub nth_bit-clear_self : (y a : ℕ) → nth_bit y (a - bit_and a (2 ^ y)) ≡ 0
unfolding nth_bit
nth_bit-clear_self zero a = omega (arith, bit_and-one a)
nth_bit-clear_self (suc y) a = rw (clear_step y a) (nth_bit-clear_self y (a / 2))

pub nth_bit-clear_ne : (y z a : ℕ) → y ≢ z → nth_bit z (a - bit_and a (2 ^ y)) ≡ nth_bit z a
unfolding nth_bit
nth_bit-clear_ne zero zero a h = absurd (h refl)
nth_bit-clear_ne zero (suc z) a h = ap (nth_bit z) (omega (arith, bit_and-one a))
nth_bit-clear_ne (suc y) zero a h =
    omega (arith, pow-suc 2 y, bit_and_step a (2 ^ suc y), bit_and-le (2 ^ suc y / 2) (a / 2))
nth_bit-clear_ne (suc y) (suc z) a h =
    rw (clear_step y a) (nth_bit-clear_ne y z (a / 2) (λ e. h (ap suc e)))
