-- ===== src/Span.antt =====
-- The decoder's block allocator: internal/reflect/span.go. Addresses are numbers; the address that
-- mallocgc (Go's runtime) gives for a block of a size is an argument.
pub mod Blocks
use frugal.Base.{ℕ, ◌+◌, ◌-◌, ◌%◌, ◌^◌, Bool, if◌then◌else◌, ltb}
use Prim.Native.Nat.{bit_and}

-- defaultDecoderMemSize
abbrev pub default_decoder_mem_size : ℕ
default_decoder_mem_size = 2048

-- `p` bytes of the block of `n` bytes at `b` are given away.
pub record Span : Type 0 where
  pub p : ℕ
  pub b : ℕ
  pub n : ℕ

-- `x & ^mask`
abbrev pub and_not : ℕ → ℕ → ℕ
and_not x mask = x - bit_and x mask

unfoldable pub init : (ℕ → ℕ) → Span
init mallocgc = record {
  p = 0;
  b = mallocgc default_decoder_mem_size;
  n = default_decoder_mem_size;
}

-- The block that Malloc cuts from: the span's own, or a new one if n bytes may not fit.
unfoldable pub block : (ℕ → ℕ) → Span → ℕ → ℕ → Span
block mallocgc s n mask =
    let sz =
      if ltb default_decoder_mem_size (n + mask) then n + mask else default_decoder_mem_size in
    if ltb s.n (s.p + n + mask) then record { p = 0; b = mallocgc sz; n = sz } else s

-- `(uintptr(ret)+uintptr(mask)) & ^uintptr(mask) - uintptr(ret)` in uintptr
unfoldable pub align_off : ℕ → ℕ → ℕ
align_off ret mask = (and_not ((ret + mask) % 2 ^ 64) mask + 2 ^ 64 - ret) % 2 ^ 64

-- Malloc(n, align): the address and the span after it.
unfoldable pub malloc : (ℕ → ℕ) → Span → ℕ → ℕ → ℕ × Span
malloc mallocgc s n align =
    let mask = align - 1 in
    let s' = block mallocgc s n mask in
    let ret = s'.b + s'.p in
    let off = align_off ret mask in (ret + off, record { p = s'.p + (n + off); b = s'.b; n = s'.n })
