-- ===== src/Tests/Tables.antt =====
-- The theorems of the tables and allocators, applied to sample values.
use frugal.Base.{ℕ, ◌%◌, ◌+◌, ◌≤◌, true, false, [], ◌∷◌, ok, ◌≡◌, refl, ◌==◌, if◌then◌else◌, arith}
use frugal.Bitset
use frugal.Bitset.Laws.{IsBitset, empty-IsBitset, set-test, unset-test}
use frugal.DescMap
use frugal.DescMap.Laws.{get-set}
use frugal.Span.{Span, malloc, block}
use frugal.Span.Blocks.{IsSpan, IsAllocator, malloc-aligned, eight}
use frugal.UnknownFields
use frugal.UnknownFields.{UnknownFields, Idx, add, copy}
use frugal.UnknownFields.Copies.{IsCounted, pieces, copy-eq-pieces, add-IsCounted, reset-IsCounted}

set-test_example :
    (s' : Bitset.Bitset) × (Bitset.set 70 Bitset.empty ≡ ok s')
    × IsBitset s'
    × ((j : ℕ) → Bitset.test j s' ≡ (if 70 == j then ok true else Bitset.test j Bitset.empty))
set-test_example = set-test Bitset.empty 70 empty-IsBitset (omega arith)

unset-test_example :
    (s' : Bitset.Bitset) × (Bitset.unset 70 Bitset.empty ≡ ok s')
    × IsBitset s'
    × ((j : ℕ) → Bitset.test j s' ≡ (if 70 == j then ok false else Bitset.test j Bitset.empty))
unset-test_example = unset-test Bitset.empty 70 empty-IsBitset (omega arith)

-- Two types of one slot.
abbrev one_type : DescMap.MapStructDesc
one_type = DescMap.set DescMap.new_map_struct_desc 65541 11

get-set_example :
    DescMap.get (DescMap.set one_type 5 12) 65541
    ≡ (if 5 == 65541 then 12 else DescMap.get one_type 65541)
get-set_example = get-set one_type 5 12 65541

-- A span of which three bytes are used, at an allocator that gives every block the same place.
abbrev used_span : Span
used_span = record { p = 3; b = 4096; n = 2048 }

used_span-IsSpan : IsSpan used_span
used_span-IsSpan = record { used = omega arith; room = omega arith }

abbrev same_place : ℕ → ℕ
same_place sz = 8192

same_place-IsAllocator : IsAllocator same_place 10000
same_place-IsAllocator sz h = omega arith

malloc-aligned_example :
    let (addr, s') = malloc same_place used_span 16 8 in
    let from = block same_place used_span 16 7 in
    IsSpan s'
    × (addr % 8 ≡ 0)
    × (from.b + from.p ≤ addr)
    × (addr + 16 ≡ s'.b + s'.p)
    × ((s'.b ≡ from.b) × (s'.n ≡ from.n))
malloc-aligned_example =
    malloc-aligned same_place used_span 16 8 10000 eight used_span-IsSpan same_place-IsAllocator
      (omega arith)

-- Two places noted in a buffer of six bytes.
abbrev noted : UnknownFields
noted = add 3 1 (add 0 2 (UnknownFields.reset (record { sz = 5; offs = [] })))

noted-IsCounted : IsCounted noted
noted-IsCounted =
    add-IsCounted 3 1 (add 0 2 (UnknownFields.reset (record { sz = 5; offs = [] })))
      (add-IsCounted 0 2 _ (reset-IsCounted _))

add-IsCounted_example : IsCounted (add 1 4 noted)
add-IsCounted_example = add-IsCounted 1 4 noted noted-IsCounted

copy-eq-pieces_example :
    copy noted (0 ∷ 0 ∷ 0 ∷ []) (1 ∷ 2 ∷ 3 ∷ 4 ∷ 5 ∷ 6 ∷ [])
    ≡ ok (pieces (1 ∷ 2 ∷ 3 ∷ 4 ∷ 5 ∷ 6 ∷ []) noted.offs)
unfolding add UnknownFields.reset UnknownFields.size
copy-eq-pieces_example =
    copy-eq-pieces noted (0 ∷ 0 ∷ 0 ∷ []) (1 ∷ 2 ∷ 3 ∷ 4 ∷ 5 ∷ 6 ∷ []) noted-IsCounted
      (omega arith, (omega arith, tt)) refl
