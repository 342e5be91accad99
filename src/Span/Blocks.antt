-- ===== src/Span/Blocks.antt =====
-- Malloc of span.go gives aligned, disjoint pieces of blocks.
use frugal.Base.{
  ℕ, ◌+◌, ◌-◌, ◌%◌, ◌^◌, ◌≤◌, ◌<◌, ◌≡◌, refl, inl, inr, arith, Bool-cases, ltb, false,
}
use frugal.Base.Bits.{bit_and-one, bit_and_three, bit_and_seven, bit_and_no_mask}
use frugal.Span.{Span, malloc, block, align_off}
use Prim.Native.Nat.{bit_and}

-- The alignments that Go's types have on 64-bit platforms.
pub data IsAlign : ℕ → Type 0 where
  one : IsAlign 1
  two : IsAlign 2
  four : IsAlign 4
  eight : IsAlign 8

-- A block lies in the address space, with room for the largest alignment after it.
pub record IsSpan (s : Span) : Type 0 where
  pub used : s.p ≤ s.n
  pub room : s.b + s.n + 8 < 2 ^ 64

-- The allocator of the runtime gives blocks in the address space.
abbrev pub IsAllocator : (ℕ → ℕ) → ℕ → Type 0
IsAllocator mallocgc limit = (sz : ℕ) → sz ≤ limit → mallocgc sz + sz + 8 < 2 ^ 64

bit_and-align : {a : ℕ} → IsAlign a → (x : ℕ) → bit_and x (a - 1) ≡ x % a
bit_and-align one x = omega (arith, bit_and_no_mask x)
bit_and-align two x = bit_and-one x
bit_and-align four x = bit_and_three x
bit_and-align eight x = bit_and_seven x

align_off-lem :
    {a : ℕ} (al : IsAlign a) (ret : ℕ)
    → ret + 8 < 2 ^ 64
    → (align_off ret (a - 1) < a) × ((ret + align_off ret (a - 1)) % a ≡ 0)
unfolding align_off
align_off-lem one ret h =
    let e : bit_and ((ret + (1 - 1)) % 2 ^ 64) (1 - 1) ≡ 0 =
      bit_and_no_mask ((ret + (1 - 1)) % 2 ^ 64) in
    (omega (arith, e), omega (arith, e))
align_off-lem two ret h =
    let e = bit_and-one ((ret + 1) % 2 ^ 64) in (omega (arith, e), omega (arith, e))
align_off-lem four ret h =
    let e = bit_and_three ((ret + 3) % 2 ^ 64) in (omega (arith, e), omega (arith, e))
align_off-lem eight ret h =
    let e = bit_and_seven ((ret + 7) % 2 ^ 64) in (omega (arith, e), omega (arith, e))

align-le : {a : ℕ} → IsAlign a → (1 ≤ a) × (a ≤ 8)
align-le one = (omega arith, omega arith)
align-le two = (omega arith, omega arith)
align-le four = (omega arith, omega arith)
align-le eight = (omega arith, omega arith)

-- The block that Malloc cuts from has room for n bytes wherever the alignment puts them.
block-fits :
    (mallocgc : ℕ → ℕ) (s : Span) (n mask limit : ℕ)
    → IsSpan s
    → IsAllocator mallocgc limit
    → 2048 + n + mask ≤ limit
    → IsSpan (block mallocgc s n mask)
      × ((block mallocgc s n mask).p + n + mask ≤ (block mallocgc s n mask).n)
unfolding block
block-fits mallocgc s n mask limit v alloc fits = elim (Bool-cases (ltb s.n (s.p + n + mask))) [
  | inr e ↦ rw e (v, omega (arith, ge_of_ltb s.n (s.p + n + mask) e))
  | inl e ↦ elim (Bool-cases (ltb 2048 (n + mask))) [
    | inl l ↦
        rw (e, l)
          (record { used = omega arith; room = alloc (n + mask) (omega arith) }, omega arith)
    | inr g ↦
        rw (e, g)
          (
            record { used = omega arith; room = alloc 2048 (omega arith) },
            omega (arith, ge_of_ltb 2048 (n + mask) g),
          )
  ]
]
  where
    ge_of_ltb : (a b : ℕ) → ltb a b ≡ false → b ≤ a
    ge_of_ltb a b h = ground arith

-- For an alignment of 1, 2, 4 or 8 and an allocator whose blocks lie in the address space, Malloc
-- returns an aligned address of n bytes inside the span's block, behind every byte given away from
-- that block before, and keeps the span well formed.
pub malloc-aligned :
    (mallocgc : ℕ → ℕ) (s : Span) (n align limit : ℕ)
    → IsAlign align
    → IsSpan s
    → IsAllocator mallocgc limit
    → 2048 + n + align ≤ limit
    → let (addr, s') = malloc mallocgc s n align in
      let from = block mallocgc s n (align - 1) in
      IsSpan s'
      × (addr % align ≡ 0)
      × (from.b + from.p ≤ addr)
      × (addr + n ≡ s'.b + s'.p)
      × ((s'.b ≡ from.b) × (s'.n ≡ from.n))
unfolding malloc
malloc-aligned mallocgc s n align limit al v alloc fits =
    let (lo, hi) = align-le al in
    let from = block mallocgc s n (align - 1) in
    let (vb, fb) = block-fits mallocgc s n (align - 1) limit v alloc (omega arith) in
    let (small, divides) = align_off-lem al (from.b + from.p) (omega (arith, vb.room, vb.used)) in
    (
      record { used = omega (arith, fb, small); room = vb.room },
      divides,
      omega arith,
      omega arith,
      (refl, refl),
    )
