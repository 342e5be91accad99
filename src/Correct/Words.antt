-- ===== src/Correct/Words.antt =====
-- Words of internal/reflect/utils.go and `appendAny` on scalars and texts.
use frugal.Base.{ℕ, zero, suc, ◌/◌, ◌%◌, ◌^◌, ◌≡◌, refl, arith}
use frugal.Base.{[], ◌∷◌, ◌++◌, length, length-append}
use frugal.Wire.{Buf, append_uint16, append_uint32, append_uint64}
use frugal.Spec.{big_endian}

pub length-big_endian : (w n : ℕ) → length (big_endian w n) ≡ w
unfolding big_endian
length-big_endian zero n = refl
length-big_endian (suc w) n =
    omega
      (arith, length-append (big_endian w (n / 256)) (n % 256 ∷ []), length-big_endian w (n / 256))

pub append_uint16-big_endian : (b : Buf) (v : ℕ) → append_uint16 b v ≡ b ++ big_endian 2 v
unfolding append_uint16 big_endian
append_uint16-big_endian b v = ground arith

pub append_uint32-big_endian : (b : Buf) (v : ℕ) → append_uint32 b v ≡ b ++ big_endian 4 v
unfolding append_uint32 big_endian
append_uint32-big_endian b v = ground arith

pub append_uint32-big_endian_mod :
    (b : Buf) (v : ℕ) → append_uint32 b (v % 2 ^ 32) ≡ b ++ big_endian 4 v
unfolding append_uint32 big_endian
append_uint32-big_endian_mod b v = ground arith

pub append_uint64-big_endian : (b : Buf) (v : ℕ) → append_uint64 b v ≡ b ++ big_endian 8 v
unfolding append_uint64 big_endian
append_uint64-big_endian b v = ground arith
