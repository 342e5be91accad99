-- ===== src/DescMap.antt =====
-- The map from types to struct descriptors: internal/reflect/descmap.go. A *structDesc is its
-- address, nil is 0. A slot's slice is never written after it is stored, so it is a list.
pub mod Laws
use frugal.Base.{ℕ, Bool, if◌then◌else◌, ◌==◌, List, [], ◌∷◌, Option, none, some}
use Prim.Native.Nat.{bit_and}

-- mapStructDescItem, and mapStructDesc: `none` is a slot that was never stored.
pub record Item : Type 0 where
  pub abi_type : ℕ
  pub sd : ℕ

pub record MapStructDesc : Type 0 where
  pub slots : ℕ → Option (List Item)

abbrev pub map_struct_desc_buckets : ℕ
map_struct_desc_buckets = 65535

abbrev pub new_map_struct_desc : MapStructDesc
new_map_struct_desc = record { slots = λ i. none }

abbrev pub bucket : ℕ → ℕ
bucket abi_type = bit_and abi_type map_struct_desc_buckets

unfoldable pub find : List Item → ℕ → ℕ
find [] abi_type = 0
find (x ∷ xs) abi_type =
    let rest = find xs abi_type in if x.abi_type == abi_type then x.sd else rest

abbrev pub items_of : Option (List Item) → List Item
items_of none = []
items_of (some xs) = xs

unfoldable pub get : MapStructDesc → ℕ → ℕ
get m abi_type = find (items_of (m.slots (bucket abi_type))) abi_type

-- The copy of the slot's items in which the first of the type is given sd, or one is appended.
unfoldable pub put : List Item → ℕ → ℕ → List Item
put [] abi_type sd = record { abi_type = abi_type; sd = sd } ∷ []
put (x ∷ xs) abi_type sd =
    let rest = put xs abi_type sd in
    if x.abi_type == abi_type then record { abi_type = x.abi_type; sd = sd } ∷ xs else x ∷ rest

-- `m.slots[bk].Store(&items)`
abbrev pub store : MapStructDesc → ℕ → List Item → MapStructDesc
store m bk xs = record { slots = λ i. if i == bk then some xs else m.slots i }

unfoldable pub set : MapStructDesc → ℕ → ℕ → MapStructDesc
set m abi_type sd =
    let bk = bucket abi_type in
    if get m abi_type == sd then m else store m bk (put (items_of (m.slots bk)) abi_type sd)
