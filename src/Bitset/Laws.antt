-- ===== src/Bitset/Laws.antt =====
-- The bitset is a set of the IDs below 65536: `set` and `unset` never panic on it, and `test` sees
-- exactly what they did.
use frugal.Base.{
  ℕ, zero, suc, ◌-◌, ◌*◌, ◌/◌, ◌%◌, ◌^◌, ◌<◌, ◌≡◌, ◌≢◌, sym, ap, ◌∙◌, arith, true, false, ◌==◌,
}
use frugal.Base.{
  set as write, eq_or_ne, lt→ltb, get_elem?-some, some, get_elem?, length, length-set,
  get_elem?-set_self, get_elem?-set_ne,
}
use frugal.Base.{ok, ==_self, ==_ne, if◌then◌else◌, length-replicate, inl, inr}
use native.Mathlib.Nat.{pow-suc}
use frugal.Base.Bits.{
  nth_bit, nth_bit-lt, bit_and-pow, nth_bit-bit_or_self, nth_bit-bit_or_ne, nth_bit-clear_self,
  nth_bit-clear_ne,
}
use frugal.Bitset.{Bitset, empty, word, put_word, set, unset, test}
use frugal.Desc.{set_index}
use mathlib.Core.Bool.{not}
use Prim.Native.Nat.{bit_and, bit_or}

-- The array has 1024 words.
pub record IsBitset (s : Bitset) : Type 0 where
  pub size : length s.data_words ≡ 1024

pub empty-IsBitset : IsBitset empty
empty-IsBitset = record { size = length-replicate {A = ℕ} 1024 0 }

word-some : (s : Bitset) (x w : ℕ) → get_elem? s.data_words x ≡ some w → word s x ≡ ok w
unfolding word
word-some s x w h = rw (h, word)

pow_pos : (y : ℕ) → 0 < 2 ^ y
pow_pos zero = omega arith
pow_pos (suc y) = omega (arith, pow-suc 2 y, pow_pos y)

scaled : (n m : ℕ) → n < 2 → 0 < m → ((n * m) == 0) ≡ (n == 0)
scaled zero m l h = ground arith
scaled (suc zero) m l h = ground arith
scaled (suc (suc n)) m l h = absurd (omega arith)

-- `test` reads the bit of the ID's word.
test-bit :
    (s : Bitset) (i w : ℕ)
    → get_elem? s.data_words (i / 64) ≡ some w
    → test i s ≡ ok (not (nth_bit (i % 64) w == 0))
unfolding test
test-bit s i w h =
    rw (word-some s (i / 64) w h, bit_and-pow (i % 64) w)
      (ap (λ b. ok (not b))
        (scaled (nth_bit (i % 64) w) (2 ^ (i % 64)) (nth_bit-lt (i % 64) w) (pow_pos (i % 64))))

-- The set with another word at the place of i.
with_word : Bitset → ℕ → ℕ → Bitset
with_word s i w = record { data_words = write s.data_words (i / 64) w }

with_word-IsBitset : (s : Bitset) (i w : ℕ) → IsBitset s → IsBitset (with_word s i w)
unfolding with_word
with_word-IsBitset s i w b = record { size = length-set s.data_words (i / 64) w ∙ b.size }

put_word-with_word :
    (s : Bitset) (i w : ℕ) → IsBitset s → i < 2 ^ 16 → put_word s (i / 64) w ≡ ok (with_word s i w)
unfolding put_word set_index with_word
put_word-with_word s i w b h = rw (lt→ltb (i / 64) (length s.data_words) (omega (arith, b.size)))

-- A write of the word of i that changes bit i only, to v, changes `test` at i only.
test-with_word :
    (s : Bitset) (i j w w' v : ℕ)
    → IsBitset s
    → i < 2 ^ 16
    → get_elem? s.data_words (i / 64) ≡ some w
    → nth_bit (i % 64) w' ≡ v
    → ((z : ℕ) → i % 64 ≢ z → nth_bit z w' ≡ nth_bit z w)
    → test j (with_word s i w') ≡ (if i == j then ok (not (v == 0)) else test j s)
unfolding with_word test word
test-with_word s i j w w' v b h g own others = elim (eq_or_ne i j) [
  | inl e ↦
      let at_i : test i (with_word s i w') ≡ ok (not (v == 0)) =
        test-bit (with_word s i w') i w'
          (get_elem?-set_self s.data_words (i / 64) w' (omega (arith, b.size)))
        ∙ ap (λ n. ok (not (n == 0))) own in
      rw (← e, ==_self i) at_i
  | inr n ↦ rw (==_ne i j n) (elim (eq_or_ne (i / 64) (j / 64)) [
    | inl e ↦
        let z : i % 64 ≢ j % 64 = λ q. n (omega arith) in
        test-bit (with_word s i w') j w'
          (rw (← e) (get_elem?-set_self s.data_words (i / 64) w' (omega (arith, b.size))))
        ∙ ap (λ m. ok (not (m == 0))) (others (j % 64) z)
        ∙ sym (test-bit s j w (rw (← e) g))
    | inr q ↦ rw (test, word, get_elem?-set_ne s.data_words (i / 64) (j / 64) w' q)
  ])
]

-- For IDs below 65536 `set` does not panic, and after it `test` is true of the ID and unchanged of
-- every other.
pub set-test :
    (s : Bitset) (i : ℕ)
    → IsBitset s
    → i < 2 ^ 16
    → (s' : Bitset) × (set i s ≡ ok s')
      × IsBitset s'
      × ((j : ℕ) → test j s' ≡ (if i == j then ok true else test j s))
unfolding set with_word
set-test s i b h =
    let (w, g) = get_elem?-some s.data_words (i / 64) (omega (arith, b.size)) in
    let w' = bit_or w (2 ^ (i % 64)) in
    (
      with_word s i w',
      rw (set, word-some s (i / 64) w g, put_word-with_word s i w' b h),
      with_word-IsBitset s i w' b,
      λ j.
          test-with_word s i j w w' 1 b h g (nth_bit-bit_or_self (i % 64) w)
            λ z n. nth_bit-bit_or_ne (i % 64) z w n,
    )

-- For IDs below 65536 `unset` does not panic, and after it `test` is false of the ID and unchanged
-- of every other.
pub unset-test :
    (s : Bitset) (i : ℕ)
    → IsBitset s
    → i < 2 ^ 16
    → (s' : Bitset) × (unset i s ≡ ok s')
      × IsBitset s'
      × ((j : ℕ) → test j s' ≡ (if i == j then ok false else test j s))
unfolding unset with_word
unset-test s i b h =
    let (w, g) = get_elem?-some s.data_words (i / 64) (omega (arith, b.size)) in
    let w' = w - bit_and w (2 ^ (i % 64)) in
    (
      with_word s i w',
      rw (unset, word-some s (i / 64) w g, put_word-with_word s i w' b h),
      with_word-IsBitset s i w' b,
      λ j.
          test-with_word s i j w w' 0 b h g (nth_bit-clear_self (i % 64) w)
            λ z n. nth_bit-clear_ne (i % 64) z w n,
    )
