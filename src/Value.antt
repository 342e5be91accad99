-- ===== src/Value.antt =====
-- A Go value in memory, as the codec of internal/reflect reads it through unsafe pointers.
use frugal.Base.{ℕ, suc, List, [], ◌∷◌, ◌≡◌, refl, ap}
use frugal.Wire.{Buf}

-- `num` is the bit pattern of a bool, an integer or a float64; `str` a string or a []byte; `nil` a
-- zero word: a nil pointer, slice, map or []byte. A map has the count of its header and the
-- entries in the order in which an iteration meets them. `struct` has the fields in memory order
-- (their indices are the offsets) and the bytes of its _unknownFields.
mutual
  pub data Val : Type 0 where
    num : ℕ → Val
    str : Buf → Val
    nil : Val
    slice : Vals → Val
    go_map : ℕ → Entries → Val
    struct : Vals → Buf → Val
    ptr : Val → Val

  pub data Vals : Type 0 where
    end : Vals
    item : Val → Vals → Vals

  pub data Entries : Type 0 where
    no_entries : Entries
    entry : Val → Val → Entries → Entries

unfoldable pub vals : List Val → Vals
vals [] = end
vals (v ∷ vs) = item v (vals vs)

unfoldable pub val_list : Vals → List Val
val_list end = []
val_list (item v vs) = v ∷ val_list vs

unfoldable pub entries : List (Val × Val) → Entries
entries [] = no_entries
entries ((k, v) ∷ es) = entry k v (entries es)

unfoldable pub entry_list : Entries → List (Val × Val)
entry_list no_entries = []
entry_list (entry k v es) = (k, v) ∷ entry_list es

pub val_list-vals : (vs : List Val) → val_list (vals vs) ≡ vs
unfolding vals val_list
val_list-vals [] = refl
val_list-vals (v ∷ vs) = ap (λ r. v ∷ r) (val_list-vals vs)

pub entry_list-entries : (es : List (Val × Val)) → entry_list (entries es) ≡ es
unfolding entries entry_list
entry_list-entries [] = refl
entry_list-entries ((k, v) ∷ es) = ap (λ r. (k, v) ∷ r) (entry_list-entries es)

abbrev pub len_vals : Vals → ℕ
len_vals end = 0
len_vals (item v vs) = suc (len_vals vs)

abbrev pub len_entries : Entries → ℕ
len_entries no_entries = 0
len_entries (entry k v es) = suc (len_entries es)
