-- ===== src/Decode/Bounds.antt =====
-- The decoder ends on every buffer, and never reports more bytes than the buffer has: the parts
-- that make no calls of their own.
pub mod Containers
pub mod Fields
pub mod Walk
use frugal.Base.{
  ℕ, ◌+◌, ◌-◌, ◌≤◌, ◌≡◌, refl, arith, List, [], ◌∷◌, Option, none, some, length, drop, length-drop,
}
use frugal.Base.{
  Outcome, ok, err, panic, fault, stuck, ◌>>=◌, Runs, Runs-bind, Runs-weaken, Bool-cases, inl, inr,
  true, false, leb→le, leb, if◌then◌else◌, ltb, not_ltb→le, get_elem?,
}
use frugal.Wire.{Buf, read_byte, read_uint16, read_uint32, read_uint64}
use frugal.Types.{
  DefType, TType, bool_t, byte_t, double_t, i16_t, i32_t, i64_t, enum_t, is_pointer, elem_type,
  ttype_of, fixed_size,
}
use frugal.Value.{Val, num}
use frugal.Desc.{StructDesc, get_field, set_index}
use frugal.Bitset.{Bitset, word, put_word, set, unset, test}
use frugal.UnknownFields.{UnknownFields, copy, copy_loop, copy_at, slice_of, Idx}
use frugal.Decode.{Read, decode_fixed_size_types, decode_string}
use frugal.Decode.Required.{unset_all, first_unset}
use frugal.Decode.Runtime.{Runtime, Decoder, slice_from, decode_elem, decode_at}

-- A result within the bytes of the buffer.
abbrev pub Fits {ℓ} : {A : Type ℓ} → Buf → A × ℕ → Type 0
Fits b r = r.1 ≤ length b

abbrev pub Anything {ℓ} : {A : Type ℓ} → A → Type 0
Anything a = Unit

abbrev pub IsBounded : Decoder → Type 0
IsBounded dec = (t : DefType) (b : Buf) (old : Val) → Runs (Fits b) (dec t b old)

pub read_byte-Runs : (b : Buf) → Runs (λ n. 1 ≤ length b) (read_byte b)
unfolding read_byte
read_byte-Runs [] = tt
read_byte-Runs (x ∷ b) = omega arith

pub read_uint16-Runs : (b : Buf) → Runs (λ n. 2 ≤ length b) (read_uint16 b)
unfolding read_uint16
read_uint16-Runs [] = tt
read_uint16-Runs (x ∷ []) = tt
read_uint16-Runs (x ∷ y ∷ b) = omega arith

pub read_uint32-Runs : (b : Buf) → Runs (λ n. 4 ≤ length b) (read_uint32 b)
unfolding read_uint32
read_uint32-Runs [] = tt
read_uint32-Runs (x ∷ []) = tt
read_uint32-Runs (x ∷ y ∷ []) = tt
read_uint32-Runs (x ∷ y ∷ z ∷ []) = tt
read_uint32-Runs (x ∷ y ∷ z ∷ w ∷ b) = omega arith

pub read_uint64-Runs : (b : Buf) → Runs (λ n. 8 ≤ length b) (read_uint64 b)
unfolding read_uint64
read_uint64-Runs [] = tt
read_uint64-Runs (x ∷ []) = tt
read_uint64-Runs (x ∷ y ∷ []) = tt
read_uint64-Runs (x ∷ y ∷ z ∷ []) = tt
read_uint64-Runs (x ∷ y ∷ z ∷ w ∷ []) = tt
read_uint64-Runs (x ∷ y ∷ z ∷ w ∷ a ∷ []) = tt
read_uint64-Runs (x ∷ y ∷ z ∷ w ∷ a ∷ c ∷ []) = tt
read_uint64-Runs (x ∷ y ∷ z ∷ w ∷ a ∷ c ∷ d ∷ []) = tt
read_uint64-Runs (x ∷ y ∷ z ∷ w ∷ a ∷ c ∷ d ∷ e ∷ b) = omega arith

pub slice_from-Runs :
    (b : Buf) (n : ℕ) → Runs (λ r. (n ≤ length b) × (length r ≡ length b - n)) (slice_from b n)
unfolding slice_from
slice_from-Runs b n = elim (Bool-cases (leb n (length b))) [
  | inl e ↦ rw e (leb→le n (length b) e, length-drop n b)
  | inr e ↦ rw e tt
]

scalar :
    (size : ℕ) (b : Buf) (m : Outcome ℕ) (f : ℕ → Val)
    → Runs (λ n. size ≤ length b) m
    → Runs (Fits b) (m >>= λ n. ok (f n, size))
scalar size b m f h = Runs-bind (λ n. size ≤ length b) (Fits b) m (λ n. ok (f n, size)) h λ n q. q

pub decode_fixed_size_types-Runs :
    (t : TType) (b : Buf) → Runs (Fits b) (decode_fixed_size_types t b)
unfolding decode_fixed_size_types
decode_fixed_size_types-Runs bool_t b = scalar 1 b (read_byte b) num (read_byte-Runs b)
decode_fixed_size_types-Runs byte_t b = scalar 1 b (read_byte b) num (read_byte-Runs b)
decode_fixed_size_types-Runs double_t b = scalar 8 b (read_uint64 b) num (read_uint64-Runs b)
decode_fixed_size_types-Runs i64_t b = scalar 8 b (read_uint64 b) num (read_uint64-Runs b)
decode_fixed_size_types-Runs i16_t b = scalar 2 b (read_uint16 b) num (read_uint16-Runs b)
decode_fixed_size_types-Runs i32_t b = scalar 4 b (read_uint32 b) num (read_uint32-Runs b)
decode_fixed_size_types-Runs enum_t b = scalar 4 b (read_uint32 b) _ (read_uint32-Runs b)
decode_fixed_size_types-Runs _ b = tt

pub decode_string-Runs : (b : Buf) → Runs (Fits b) (decode_string b)
unfolding decode_string
decode_string-Runs b = elim (Bool-cases (ltb (length b) 4)) [
  | inl e ↦ rw e tt
  | inr e ↦ rw e (
      Runs-bind (λ l. 4 ≤ length b) (Fits b) (read_uint32 b) _ (read_uint32-Runs b)
        λ l q. ground arith)
]

pub decode_elem-IsBounded : (dec : Decoder) → IsBounded dec → IsBounded (decode_elem dec)
unfolding decode_elem
decode_elem-IsBounded dec h t b old = elim (Bool-cases (ltb 0 (fixed_size t))) [
  | inl e ↦ rw e (decode_fixed_size_types-Runs (ttype_of t) b)
  | inr e ↦ rw e (h t b old)
]

pub decode_at-IsBounded :
    (rt : Runtime) (dec : Decoder) → IsBounded dec → IsBounded (decode_at rt dec)
unfolding decode_at
decode_at-IsBounded rt dec h t b old = elim (Bool-cases (is_pointer t)) [
  | inl e ↦
      rw e
        (Runs-bind (Fits b) (Fits b) (dec t b (rt.fresh (elem_type t))) _ (h t b _) λ (w, n) q. q)
  | inr e ↦ rw e (h t b old)
]

-- The tables and sets do not loop.
pub get_field-Runs : (sd : StructDesc) (fid : ℕ) → Runs Anything (get_field sd fid)
unfolding get_field
get_field-Runs sd fid = ground arith

pub set-Runs : (i : ℕ) (s : Bitset) → Runs Anything (set i s)
unfolding set word put_word set_index
set-Runs i s = ground arith

pub unset_all-Runs : (ids : List ℕ) (s : Bitset) → Runs Anything (unset_all ids s)
unfolding unset_all
unset_all-Runs [] s = tt
unset_all-Runs (i ∷ ids) s =
    Runs-bind Anything Anything (unset i s) _ (unset-Runs i s) λ s' _. unset_all-Runs ids s'
  where
    unset-Runs : (i : ℕ) (s : Bitset) → Runs Anything (unset i s)
    unset-Runs i s = unfold unset word put_word set_index in ground arith

pub first_unset-Runs : (ids : List ℕ) (s : Bitset) → Runs Anything (first_unset ids s)
unfolding first_unset
first_unset-Runs [] s = tt
first_unset-Runs (i ∷ ids) s =
    let rest = first_unset-Runs ids s in
    Runs-bind Anything Anything (test i s) _ (test-Runs i s)
      (elim [ true ↦ λ _. rest | false ↦ λ _. tt ])
  where
    test-Runs : (i : ℕ) (s : Bitset) → Runs Anything (test i s)
    test-Runs i s = unfold test word in ground arith

copy_loop-Runs :
    (b : Buf) (xs : List Idx) (off : ℕ) (ret : Buf) → Runs Anything (copy_loop b xs off ret)
unfolding copy_loop
copy_loop-Runs b [] off ret = tt
copy_loop-Runs b (x ∷ xs) off ret =
    Runs-bind Anything Anything (slice_of b x.off x.sz) _ (slice_of-Runs x.off x.sz) λ src _.
      Runs-bind Anything Anything (copy_at ret off src) _ (copy_at-Runs src)
        λ ret' _. copy_loop-Runs b xs (off + x.sz) ret'
  where
    slice_of-Runs : (lo n : ℕ) → Runs Anything (slice_of b lo n)
    slice_of-Runs lo n = unfold slice_of in ground arith

    copy_at-Runs : (src : Buf) → Runs Anything (copy_at ret off src)
    copy_at-Runs src = unfold copy_at in ground arith

pub copy-Runs : (p : UnknownFields) (mem b : Buf) → Runs Anything (copy p mem b)
unfolding copy
copy-Runs p mem b = copy_loop-Runs b p.offs 0 mem
