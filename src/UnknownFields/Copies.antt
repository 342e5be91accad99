-- ===== src/UnknownFields/Copies.antt =====
-- Copy returns the noted pieces one after the other, whatever the fresh memory held.
use frugal.Base.{ℕ, zero, suc, ◌+◌, ◌-◌, ◌≤◌, ◌≡◌, refl, sym, ap, ◌∙◌, arith, List, [], ◌∷◌, ◌++◌}
use frugal.Base.{length, take, drop, length-append, length-take, length-drop, ok, le→leb}
use frugal.Base.{append_assoc, All, take-append}
use Prim.Native.Nat.add
use frugal.Wire.{Buf}
use frugal.UnknownFields.{size, Idx, UnknownFields, reset, add, slice_of, copy_at, copy_loop, copy}

-- The sum of the sizes, and the pieces of the buffer.
unfoldable pub total : List Idx → ℕ
total [] = 0
total (x ∷ xs) = x.sz + total xs

unfoldable pub pieces : Buf → List Idx → Buf
pieces b [] = []
pieces b (x ∷ xs) = take x.sz (drop x.off b) ++ pieces b xs

-- What Reset and any number of Adds leave: sz is the total of the noted sizes.
pub record IsCounted (p : UnknownFields) : Type 0 where
  pub counted : p.sz ≡ total p.offs

pub reset-IsCounted : (p : UnknownFields) → IsCounted (reset p)
unfolding reset total
reset-IsCounted p = record { counted = refl }

total-append : (xs ys : List Idx) → total (xs ++ ys) ≡ total xs + total ys
unfolding total
total-append [] ys = omega arith
total-append (x ∷ xs) ys = omega (arith, total-append xs ys)

-- Add keeps sz equal to the total of the sizes of the noted places.
pub add-IsCounted : (off sz : ℕ) (p : UnknownFields) → IsCounted p → IsCounted (add off sz p)
unfolding add total
add-IsCounted off sz p c = record {
  counted = omega (arith, c.counted, total-append p.offs (record { off = off; sz = sz } ∷ []));
}

pub pieces-append : (b : Buf) (xs ys : List Idx) → pieces b (xs ++ ys) ≡ pieces b xs ++ pieces b ys
unfolding pieces
pieces-append b [] ys = refl
pieces-append b (x ∷ xs) ys =
    ap (λ r. take x.sz (drop x.off b) ++ r) (pieces-append b xs ys)
    ∙ sym (append_assoc (take x.sz (drop x.off b)) (pieces b xs) (pieces b ys))

-- Every noted place lies in the buffer.
abbrev pub Within : Buf → List Idx → Type 0
Within b xs = All (λ (x : Idx). x.off + x.sz ≤ length b) xs

take_all {ℓ} : {A : Type ℓ} (n : ℕ) (xs : List A) → length xs ≤ n → take n xs ≡ xs
take_all zero [] h = refl
take_all zero (x ∷ xs) h = absurd (omega arith)
take_all (suc n) [] h = refl
take_all (suc n) (x ∷ xs) h = ap (λ r. x ∷ r) (take_all n xs (omega arith))

drop_past {ℓ} : {A : Type ℓ} (xs ys : List A) (n : ℕ) → drop (length xs + n) (xs ++ ys) ≡ drop n ys
drop_past [] ys n = rw add.zero
drop_past (x ∷ xs) ys n = rw add.suc (drop_past xs ys n)

slice_of-within :
    (b : Buf) (lo n : ℕ) → lo + n ≤ length b → slice_of b lo n ≡ ok (take n (drop lo b))
unfolding slice_of
slice_of-within b lo n h = rw (le→leb (lo + n) (length b) h)

-- A copy behind what is done, into memory that has room for it.
copy_at-append :
    (done free src : Buf)
    → length src ≤ length free
    → copy_at (done ++ free) (length done) src ≡ ok ((done ++ src) ++ drop (length src) free)
unfolding copy_at
copy_at-append done free src h =
    let l = length-append done free in
    rw
      (
        le→leb (length done) (length (done ++ free)) (omega (arith, l)),
        take-append done free,
        take_all (length (done ++ free) - length done) src (omega (arith, l)),
        drop_past done free (length src),
      )
      (ap ok (sym (append_assoc done src (drop (length src) free))))

length-piece : (b : Buf) (lo n : ℕ) → lo + n ≤ length b → length (take n (drop lo b)) ≡ n
length-piece b lo n h = omega (arith, length-take n (drop lo b), length-drop lo b)

-- The loop, with `done` copied and `free` still to be written over.
copy_loop-pieces :
    (b : Buf) (xs : List Idx) (done free : Buf) (off : ℕ)
    → Within b xs
    → length done ≡ off
    → length free ≡ total xs
    → copy_loop b xs off (done ++ free) ≡ ok (done ++ pieces b xs)
unfolding copy_loop pieces total
copy_loop-pieces b [] done [] off w e f = refl
copy_loop-pieces b [] done (x ∷ free) off w e f = absurd (omega arith)
copy_loop-pieces b (x ∷ xs) done free off (wx, w) e f =
    let piece = take x.sz (drop x.off b) in
    let lp = length-piece b x.off x.sz wx in
    let rest =
      copy_loop-pieces b xs (done ++ piece) (drop (length piece) free) (off + x.sz) w
        (omega (arith, e, lp, length-append done piece))
        (omega (arith, f, lp, length-drop (length piece) free)) in
    rw (slice_of-within b x.off x.sz wx, ← e, copy_at-append done free piece (omega (arith, lp, f)))
      (rw (← e) at rest ∙ ap ok (append_assoc done piece (pieces b xs)))

-- If the noted places lie in the buffer and the fresh memory has sz bytes, Copy returns the bytes
-- of the noted places in the order in which they were added, whatever the memory held before.
pub copy-eq-pieces :
    (p : UnknownFields) (mem b : Buf)
    → IsCounted p
    → Within b p.offs
    → length mem ≡ size p
    → copy p mem b ≡ ok (pieces b p.offs)
unfolding copy size
copy-eq-pieces p mem b c w h = copy_loop-pieces b p.offs [] mem 0 w refl (h ∙ c.counted)
