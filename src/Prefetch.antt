-- ===== src/Prefetch.antt =====
-- The descriptors of a struct and of all structs inside it: newStructDesc, newStructDescAndPrefetch,
-- prefetchSubStructDesc and fetchStructDesc of internal/reflect/desc.go. The calls are made under
-- the lock sdsmu, one at a time.
pub mod Keys
pub mod Resolved
pub mod Calls
pub mod Complete
pub mod Created
pub mod Reach
use frugal.Base.{
  ℕ, zero, suc, Bool, true, false, ◌||◌, ◌==◌, List, [], ◌∷◌, ◌++◌, Option, none, some,
}
use frugal.Base.{Outcome, ok, err, panic, fault, stuck, ◌>>=◌, if◌then◌else◌}
use frugal.Types.{
  DefType, TType, t_struct, t_map, t_set, t_list, t_pointer, struct_t, map_t, set_t, list_t,
  ttype_of,
}
use frugal.Desc.{TField, StructDesc, from_defs_fields}
use frugal.Resolve.{StructField, Defaults, do_resolve_fields}

-- reflect.Type of a struct or of a pointer to one; `number` is the struct's.
pub data StructType : Type 0 where
  by_value by_pointer : ℕ → StructType

unfoldable pub number : StructType → ℕ
number (by_value s) = s
number (by_pointer s) = s

unfoldable pub same_type : StructType → StructType → Bool
same_type (by_value a) (by_value b) = a == b
same_type (by_pointer a) (by_pointer b) = a == b
same_type _ _ = false

unfoldable pub has_type : List StructType → StructType → Bool
has_type [] k = false
has_type (j ∷ js) k = same_type j k || has_type js k

-- What reflect says of a struct: its fields, what InitDefault gives them, whether it has InitDefault,
-- and whether it has a []byte field _unknownFields.
pub record StructInfo : Type 0 where
  pub fields : List StructField
  pub defaults : Defaults
  pub init_func : Bool
  pub unknown_fields : Bool

unfoldable pub new_struct_desc : StructInfo → Outcome StructDesc
new_struct_desc x = do
  ff ← do_resolve_fields x.defaults x.fields
  from_defs_fields x.init_func x.unknown_fields ff

-- The keys of prefetchStructDescCache, and the struct types whose tType has its Sd.
pub record Cache : Type 0 where
  pub descs : List StructType
  pub linked : List StructType

-- A call: its error, and the caches, which keep what was written before an error.
abbrev pub Action : Type 0
Action = Cache → Outcome (Unit {0}) × Cache

abbrev pub done : Action
done c = (ok tt, c)

abbrev pub and_then : Outcome (Unit {0}) × Cache → Action → Outcome (Unit {0}) × Cache
and_then (ok _, c) k = k c
and_then (err e, c) k = (err e, c)
and_then (panic, c) k = (panic, c)
and_then (fault, c) k = (fault, c)
and_then (stuck, c) k = (stuck, c)

-- `t.Sd = sd`, if it is nil, with the descriptor that `create` caches.
unfoldable pub link : (StructType → Action) → StructType → Action
link create k c =
    if has_type c.linked k
    then done c
    else and_then (create k c) (λ c'. done (record c' { linked = k ∷ c'.linked }))

-- fetchStructDesc. Of a pointer to a map or to a pointer there is no tType: newTType has panicked.
unfoldable pub fetch_struct_desc : (StructType → Action) → DefType → Action
fetch_struct_desc create (t_map k v) c =
    and_then (fetch_struct_desc create k c) (λ c'. fetch_struct_desc create v c')
fetch_struct_desc create (t_set v) c = fetch_struct_desc create v c
fetch_struct_desc create (t_list v) c = fetch_struct_desc create v c
fetch_struct_desc create (t_struct s) c = link create (by_value s) c
fetch_struct_desc create (t_pointer (t_struct s)) c = link create (by_pointer s) c
fetch_struct_desc create (t_pointer (t_map k v)) c = (panic, c)
fetch_struct_desc create (t_pointer (t_set v)) c = fetch_struct_desc create v c
fetch_struct_desc create (t_pointer (t_list v)) c = fetch_struct_desc create v c
fetch_struct_desc create (t_pointer (t_pointer v)) c = (panic, c)
fetch_struct_desc create _ c = done c

unfoldable pub has_sub_types : TType → Bool
has_sub_types struct_t = true
has_sub_types map_t = true
has_sub_types list_t = true
has_sub_types set_t = true
has_sub_types _ = false

unfoldable pub prefetch_sub_struct_desc : (StructType → Action) → List TField → Action
prefetch_sub_struct_desc create [] c = done c
prefetch_sub_struct_desc create (f ∷ fs) c =
    and_then (if has_sub_types (ttype_of f.type) then fetch_struct_desc create f.type c else done c)
      (λ c'. prefetch_sub_struct_desc create fs c')

-- `delete(prefetchStructDescCache, t)`
unfoldable pub delete : StructType → List StructType → List StructType
delete k [] = []
delete k (j ∷ js) = let rest = delete k js in if same_type j k then rest else j ∷ rest

unfoldable pub or_delete : StructType → Outcome (Unit {0}) × Cache → Outcome (Unit {0}) × Cache
or_delete k (err e, c) = (err e, record c { descs = delete k c.descs })
or_delete k r = r

module _ (infos : ℕ → StructInfo) where
  -- newStructDescAndPrefetch, with fuel for the structs that are not cached.
  unfoldable pub new_struct_desc_and_prefetch : ℕ → StructType → Action
  new_struct_desc_and_prefetch zero k c = (stuck, c)
  new_struct_desc_and_prefetch (suc fuel) k c =
      if has_type c.descs k then done c else elim (new_struct_desc (infos (number k))) [
        | ok sd ↦ or_delete k (
            prefetch_sub_struct_desc (new_struct_desc_and_prefetch fuel) sd.fields
              (record c { descs = k ∷ c.descs }))
        | err e ↦ (err e, c)
        | panic ↦ (panic, c)
        | fault ↦ (fault, c)
        | stuck ↦ (stuck, c)
      ]
