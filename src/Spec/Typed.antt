-- ===== src/Spec/Typed.antt =====
-- Which values a Go variable of a type can hold. `by_value` says whether a struct may be held by
-- value in a field, an element or a map's entry, beside structs behind pointers. Of the maps, those
-- that append_map_fast.go ranges over at another Go map type are left out (is_read_whole).
use frugal.Base.{ℕ, ◌^◌, ◌<◌, ◌≡◌, ◌⊎◌, Bool, true, false, ◌&&◌, All}
use frugal.Base.{List, [], ◌∷◌, Option, none, some, length, get_elem?}
use frugal.Types.{DefType, TType, t_bool, t_i8, t_double, t_i16, t_i32, t_i64, t_string, t_enum}
use frugal.Types.{t_binary, t_struct, t_map, t_set, t_list, t_pointer, is_key_type, is_value_type}
use frugal.Types.{string_t, struct_t, map_t, set_t, list_t, ttype_of}
use frugal.Value.{Val, Vals, Entries, num, str, nil, slice, go_map, struct, ptr, end, item}
use frugal.Value.{no_entries, entry, len_vals, len_entries}
use frugal.Child.{is_nil}
use frugal.Desc.{TField, StructDesc}

-- The words that a scalar type's bit patterns are, and the types with text.
abbrev pub IsWord : ℕ → DefType → Type 0
IsWord n t_bool = n < 2
IsWord n t_i8 = n < 2 ^ 8
IsWord n t_double = n < 2 ^ 64
IsWord n t_i16 = n < 2 ^ 16
IsWord n t_i32 = n < 2 ^ 32
IsWord n t_i64 = n < 2 ^ 64
IsWord n t_enum = n < 2 ^ 64
IsWord n _ = ⊥

abbrev pub IsText : DefType → Type 0
IsText t_string = Unit
IsText t_binary = Unit
IsText _ = ⊥

-- The types at which a zero word is a value.
abbrev pub IsNilable : DefType → Type 0
IsNilable t_binary = Unit
IsNilable (t_map k v) = (is_key_type k ≡ true) × (is_value_type v ≡ true)
IsNilable (t_set v) = is_value_type v ≡ true
IsNilable (t_list v) = is_value_type v ≡ true
IsNilable (t_pointer (t_struct s)) = Unit
IsNilable _ = ⊥

-- The types whose values the map functions walk into.
unfoldable pub is_walked : DefType → Bool
is_walked (t_struct s) = true
is_walked (t_map k v) = true
is_walked (t_set v) = true
is_walked (t_list v) = true
is_walked (t_pointer v) = true
is_walked _ = false

-- A map that is read at its own Go type, or by reflect: its values are no []byte, unless its keys
-- are pointers, and its keys are no doubles, unless its values are walked into.
unfoldable pub is_read_whole : DefType → DefType → Bool
unfolding is_walked
is_read_whole (t_pointer k) v = true
is_read_whole t_double v = is_walked v
is_read_whole k t_binary = false
is_read_whole k v = true

-- A default value that `Equal` reads at the type.
abbrev pub IsReadable : TType → Val → Type 0
IsReadable string_t (str s) = Unit
IsReadable string_t nil = Unit
IsReadable string_t _ = ⊥
IsReadable struct_t v = Unit
IsReadable map_t v = Unit
IsReadable set_t v = Unit
IsReadable list_t v = Unit
IsReadable _ (num n) = Unit
IsReadable _ _ = ⊥

abbrev pub DefaultReads : TType → Option Val → Type 0
DefaultReads t none = Unit
DefaultReads t (some d) = IsReadable t d

abbrev pub HasReadableDefault : TField → Type 0
HasReadableDefault f = DefaultReads (ttype_of f.type) f.default_val

-- A child, with what its type is to be.
abbrev pub Holds : Type 1
Holds = Val × (DefType → Type 0)

-- A field's child has the field's type, or is a nil that is skipped.
abbrev pub HoldsField : TField → Option Holds → Type 0
HoldsField f none = ⊥
HoldsField f (some (v, P)) = ((f.can_skip_encode_if_nil && is_nil v) ≡ true) ⊎ P f.type

abbrev pub HoldsFields : List TField → List Holds → Type 0
HoldsFields [] cs = Unit
HoldsFields (f ∷ fs) cs =
    HasReadableDefault f × HoldsField f (get_elem? cs f.offset) × HoldsFields fs cs

module _ (ds : ℕ → StructDesc) (by_value : Bool) where
  abbrev pub HoldsStruct : DefType → List Holds → Type 0
  HoldsStruct (t_struct s) cs = HoldsFields (ds s).fields cs
  HoldsStruct _ cs = ⊥

  -- `IsTyped v t`: `v` is a value of `t`. `IsPointee v t`: a pointer to `t` may lead to `v`.
  abbrev mutual
    pub IsTyped : Val → DefType → Type 0
    IsTyped (num n) t = IsWord n t
    IsTyped (str s) t = IsText t × (length s < 2 ^ 31) × All (λ x. x < 256) s
    IsTyped nil t = IsNilable t
    IsTyped (slice vs) (t_set e) = (is_value_type e ≡ true) × (len_vals vs < 2 ^ 31) × AllTyped vs e
    IsTyped (slice vs) (t_list e) =
        (is_value_type e ≡ true) × (len_vals vs < 2 ^ 31) × AllTyped vs e
    IsTyped (slice vs) _ = ⊥
    IsTyped (go_map n es) (t_map k v) =
        (is_key_type k ≡ true)
        × (is_value_type v ≡ true)
        × (n ≡ len_entries es)
        × (n < 2 ^ 31)
        × (is_read_whole k v ≡ true)
        × EntriesTyped es k v
    IsTyped (go_map n es) _ = ⊥
    IsTyped (struct vs xb) t = (by_value ≡ true) × HoldsStruct t (holds vs)
    IsTyped (ptr w) (t_pointer t) = IsPointee w t
    IsTyped (ptr w) _ = ⊥

    pub IsPointee : Val → DefType → Type 0
    IsPointee (num n) t = IsWord n t
    IsPointee (str s) t = IsText t × (length s < 2 ^ 31) × All (λ x. x < 256) s
    IsPointee (struct vs xb) t = HoldsStruct t (holds vs)
    IsPointee _ t = ⊥

    pub holds : Vals → List Holds
    holds end = []
    holds (item v vs) = (v, IsTyped v) ∷ holds vs

    pub AllTyped : Vals → DefType → Type 0
    AllTyped end t = Unit
    AllTyped (item v vs) t = IsTyped v t × AllTyped vs t

    pub EntriesTyped : Entries → DefType → DefType → Type 0
    EntriesTyped no_entries kt vt = Unit
    EntriesTyped (entry k v es) kt vt = IsTyped k kt × IsTyped v vt × EntriesTyped es kt vt
