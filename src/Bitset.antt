-- ===== src/Bitset.antt =====
-- The set of field IDs of internal/reflect/bitset.go: 1024 words of 64 bits.
pub mod Laws
use frugal.Base.{ℕ, ◌-◌, ◌/◌, ◌%◌, ◌^◌, Bool, ◌==◌, List, none, some, get_elem?}
use frugal.Base.{Outcome, ok, panic, ◌>>=◌, replicate}
use frugal.Desc.{set_index}
use mathlib.Core.Bool.{not}
use Prim.Native.Nat.{bit_and, bit_or}

pub record Bitset : Type 0 where
  pub data_words : List ℕ

abbrev pub empty : Bitset
empty = record { data_words = replicate 1024 0 }

-- `s.data[x]`
unfoldable pub word : Bitset → ℕ → Outcome ℕ
word s x = elim (get_elem? s.data_words x) [ none ↦ panic | some w ↦ ok w ]

-- `s.data[x] = w`
unfoldable pub put_word : Bitset → ℕ → ℕ → Outcome Bitset
put_word s x w = do ws ← set_index s.data_words x w; ok (record { data_words = ws })

-- `s.data[i>>6] |= 1 << (i&63)`
unfoldable pub set : ℕ → Bitset → Outcome Bitset
set i s = do w ← word s (i / 64); put_word s (i / 64) (bit_or w (2 ^ (i % 64)))

-- `s.data[i>>6] &^= 1 << (i&63)`
unfoldable pub unset : ℕ → Bitset → Outcome Bitset
unset i s = do w ← word s (i / 64); put_word s (i / 64) (w - bit_and w (2 ^ (i % 64)))

unfoldable pub test : ℕ → Bitset → Outcome Bool
test i s = do w ← word s (i / 64); ok (not (bit_and w (2 ^ (i % 64)) == 0))
