-- ===== src/Wire/Laws.antt =====
-- Reading back what was appended, with what follows left in place.
use frugal.Base.{ℕ, ◌-◌, ◌%◌, ◌^◌, ◌<◌, ◌≤◌, [], ◌++◌, arith}
use frugal.Base.{ok, ◌≡◌, ap, ◌⊎◌}
use frugal.Wire.{Buf, append_uint16, append_uint32, append_uint64, sign_extend}
use frugal.Wire.{read_uint16, read_uint32, read_uint64}

pub read-append_uint16 :
    (v : ℕ) (rest : Buf) → v < 2 ^ 16 → read_uint16 (append_uint16 [] v ++ rest) ≡ ok v
unfolding append_uint16 read_uint16
read-append_uint16 v rest h = ap ok (omega arith)

pub read-append_uint32 :
    (v : ℕ) (rest : Buf) → v < 2 ^ 32 → read_uint32 (append_uint32 [] v ++ rest) ≡ ok v
unfolding append_uint32 read_uint32
read-append_uint32 v rest h = ap ok (omega arith)

pub read-append_uint64 :
    (v : ℕ) (rest : Buf) → v < 2 ^ 64 → read_uint64 (append_uint64 [] v ++ rest) ≡ ok v
unfolding append_uint64 read_uint64
read-append_uint64 v rest h = ap ok (omega arith)

-- Truncation to 32 bits and sign extension back keep every 64-bit word that is a 32-bit integer.
pub sign_extend-mod :
    (v : ℕ) → (v < 2 ^ 31) ⊎ ((2 ^ 64 - 2 ^ 31 ≤ v) × (v < 2 ^ 64)) → sign_extend (v % 2 ^ 32) ≡ v
unfolding sign_extend
sign_extend-mod v h = ground arith
