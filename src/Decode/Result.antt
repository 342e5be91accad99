-- ===== src/Decode/Result.antt =====
-- What a value becomes that is encoded and decoded again: written from the meaning of the wire form,
-- not from the decoder. A nil slice or map comes back empty, a nil pointer to a struct as a new
-- struct, an enum as the 32-bit integer that its low bits are, and a field that was left out as what
-- the new struct has there.
use frugal.Base.{
  ℕ, zero, suc, ◌%◌, ◌^◌, ◌≤◌, ◌≡◌, ◌⊎◌, true, false, if◌then◌else◌, List, [], ◌∷◌, Option, none,
  some, get_elem?,
}
use frugal.Wire.{Buf, sign_extend}
use frugal.Types.{
  DefType, TType, t_struct, enum_t, string_t, struct_t, map_t, set_t, list_t, ttype_of, key_type,
  elem_type,
}
use frugal.Value.{
  Val, Vals, Entries, num, str, nil, slice, go_map, struct, ptr, end, item, no_entries, entry,
}
use frugal.Desc.{TField, StructDesc}
use frugal.Codec.{struct_of}
use frugal.Spec.{is_omitted}
use frugal.Decode.Runtime.{Runtime}
use frugal.Decode.Containers.{same_key}
use frugal.Decode.Fields.{set_val}
use frugal.Decode.Unknown.{HasUnknowns, kept_unknowns}
use frugal.Decode.Walk.{init_struct}

-- A scalar after its trip: 32 bits of an enum are on the wire.
unfoldable pub read_back : TType → ℕ → ℕ
read_back enum_t n = sign_extend (n % 2 ^ 32)
read_back _ n = n

-- A struct's child: its value, and what it becomes at a type.
abbrev pub Place : Type 0
Place = Val × (DefType → Val)

unfoldable pub patch_field : TField → Option Place → Vals → Vals
patch_field f none ws = ws
patch_field f (some (v, r)) ws = if is_omitted f v then ws else set_val ws f.offset (r f.type)

-- The fields that are on the wire, written over those of a struct.
unfoldable pub patch : List TField → List Place → Vals → Vals
patch [] ps ws = ws
patch (f ∷ fs) ps ws = patch fs ps (patch_field f (get_elem? ps f.offset) ws)

unfoldable pub fill : StructDesc → List Place → Buf → Val → Val
unfolding kept_unknowns
fill sd ps xb (struct ws yb) = struct (patch sd.fields ps ws) (kept_unknowns xb yb)
fill sd ps xb v = v

-- The depth limit one call below.
abbrev below : ℕ → ℕ
below zero = zero
below (suc d) = d

-- A key that is none of a map's, by Go's `==`.
abbrev pub IsNoKey : DefType → Val → Entries → Type 0
IsNoKey kt k no_entries = Unit
IsNoKey kt k (entry k' v es) = (same_key kt k k' ≡ false) × IsNoKey kt k es

-- A child with when it can be decoded: at a depth and a type.
abbrev pub Good : Type 1
Good = Val × (ℕ → DefType → Type 0)

abbrev pub FieldDecodable : ℕ → TField → Option Good → Type 0
FieldDecodable d f none = ⊥
FieldDecodable d f (some (v, P)) = (is_omitted f v ≡ true) ⊎ P d f.type

abbrev pub FieldsDecodable : ℕ → List TField → List Good → Type 0
FieldsDecodable d [] gs = Unit
FieldsDecodable d (f ∷ fs) gs = FieldDecodable d f (get_elem? gs f.offset) × FieldsDecodable d fs gs

module _ (rt : Runtime) (ds : ℕ → StructDesc) where
  -- A new struct, as decodeType finds it.
  abbrev pub new_struct : ℕ → Val
  new_struct s = init_struct rt ds s (rt.fresh (t_struct s))

  unfoldable pub decoded_nil : TType → DefType → Val
  decoded_nil list_t t = slice end
  decoded_nil set_t t = slice end
  decoded_nil map_t t = go_map 0 no_entries
  decoded_nil string_t t = str []
  decoded_nil struct_t t = elim (struct_of t) [ none ↦ nil | some s ↦ ptr (new_struct s) ]
  decoded_nil _ t = nil

  unfoldable mutual
    pub decoded : Val → DefType → Val
    decoded (num n) t = num (read_back (ttype_of t) n)
    decoded (str s) t = str s
    decoded nil t = decoded_nil (ttype_of t) t
    decoded (slice vs) t = slice (decoded_elems vs (elem_type t))
    decoded (go_map n es) t = go_map n (decoded_entries es (key_type t) (elem_type t))
    decoded (struct vs xb) t = elim (struct_of t) [
      | none ↦ nil
      | some s ↦ fill (ds s) (places vs) xb (new_struct s)
    ]
    decoded (ptr w) t = ptr (decoded w (elem_type t))

    pub places : Vals → List Place
    places end = []
    places (item v vs) = (v, decoded v) ∷ places vs

    pub decoded_elems : Vals → DefType → Vals
    decoded_elems end t = end
    decoded_elems (item v vs) t = item (decoded v t) (decoded_elems vs t)

    pub decoded_entries : Entries → DefType → DefType → Entries
    decoded_entries no_entries kt vt = no_entries
    decoded_entries (entry k v es) kt vt =
        entry (decoded k kt) (decoded v vt) (decoded_entries es kt vt)

  abbrev pub NilDecodable : TType → ℕ → DefType → Type 0
  NilDecodable struct_t d t =
      (2 ≤ d) × (elim (struct_of t) [ none ↦ ⊥ | some s ↦ (ds s).required_field_ids ≡ [] ])
  NilDecodable _ d t = 1 ≤ d

  abbrev pub StructDecodable : Option ℕ → Buf → List Good → ℕ → Type 0
  StructDecodable none xb gs d = ⊥
  StructDecodable (some s) xb gs d = HasUnknowns rt (ds s) xb × FieldsDecodable d (ds s).fields gs

  -- Decoding does not reach the depth limit d, finds all required fields (a nil pointer to a struct
  -- is on the wire as a struct without fields), passes over unknown fields, and the keys of a map are
  -- still different after the trip (enums lose their high bits).
  abbrev mutual
    pub IsDecodable : Val → ℕ → DefType → Type 0
    IsDecodable (num n) d t = 1 ≤ d
    IsDecodable (str s) d t = 1 ≤ d
    IsDecodable nil d t = NilDecodable (ttype_of t) d t
    IsDecodable (slice vs) d t = (1 ≤ d) × AllDecodable vs (below d) (elem_type t)
    IsDecodable (go_map n es) d t =
        (1 ≤ d) × EntriesDecodable es (below d) (key_type t) (elem_type t)
    IsDecodable (struct vs xb) d t =
        (2 ≤ d) × StructDecodable (struct_of t) xb (goods vs) (below (below d))
    IsDecodable (ptr w) d t = IsDecodable w d (elem_type t)

    pub goods : Vals → List Good
    goods end = []
    goods (item v vs) = (v, IsDecodable v) ∷ goods vs

    pub AllDecodable : Vals → ℕ → DefType → Type 0
    AllDecodable end d t = Unit
    AllDecodable (item v vs) d t = IsDecodable v d t × AllDecodable vs d t

    pub EntriesDecodable : Entries → ℕ → DefType → DefType → Type 0
    EntriesDecodable no_entries d kt vt = Unit
    EntriesDecodable (entry k v es) d kt vt =
        IsDecodable k d kt
        × IsDecodable v d vt
        × IsNoKey kt (decoded k kt) (decoded_entries es kt vt)
        × EntriesDecodable es d kt vt
