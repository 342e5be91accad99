-- ===== src/UnknownFields.antt =====
-- The bytes of fields that a descriptor does not know: internal/reflect/unknownfields.go. While a
-- struct is decoded their places in the buffer are noted, and at its end they are copied out.
pub mod Copies
use frugal.Base.{
  ℕ, zero, suc, ◌+◌, ◌-◌, List, [], ◌∷◌, ◌++◌, length, take, drop, Outcome, ok, panic,
}
use frugal.Base.{◌>>=◌, leb, ltb, if◌then◌else◌}
use frugal.Wire.{Buf}

-- unknownFieldIdx, and unknownFields.
pub record Idx : Type 0 where
  pub off : ℕ
  pub sz : ℕ

pub record UnknownFields : Type 0 where
  pub sz : ℕ
  pub offs : List Idx

unfoldable pub reset : UnknownFields → UnknownFields
reset p = record { sz = 0; offs = [] }

unfoldable pub add : ℕ → ℕ → UnknownFields → UnknownFields
add off sz p = record { sz = p.sz + sz; offs = p.offs ++ (record { off = off; sz = sz } ∷ []) }

unfoldable pub size : UnknownFields → ℕ
size p = p.sz

-- b[lo:lo+n], which panics beyond the end of the slice.
unfoldable pub slice_of : Buf → ℕ → ℕ → Outcome Buf
slice_of b lo n = if leb (lo + n) (length b) then ok (take n (drop lo b)) else panic

-- copy(ret[off:], src): as many bytes as both hold; ret[off:] panics beyond the end of `ret`.
unfoldable pub copy_at : Buf → ℕ → Buf → Outcome Buf
copy_at ret off src =
    if leb off (length ret)
    then ok (take off ret ++ (take (length ret - off) src ++ drop (off + length src) ret))
    else panic

unfoldable pub copy_loop : Buf → List Idx → ℕ → Buf → Outcome Buf
copy_loop b [] off ret = ok ret
copy_loop b (x ∷ xs) off ret = do
  src ← slice_of b x.off x.sz
  ret' ← copy_at ret off src
  copy_loop b xs (off + x.sz) ret'

-- Copy; `mem` is the memory that mallocgc returned for sz bytes, which it does not clear.
unfoldable pub copy : UnknownFields → Buf → Buf → Outcome Buf
copy p mem b = copy_loop b p.offs 0 mem
