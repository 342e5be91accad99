-- ===== src/Codec.antt =====
-- The walk over a value in memory: what `newTType` puts into AppendFunc and EncodedSizeFunc
-- (internal/reflect/ttype.go), called at each value, and the entries Append and EncodedSize of
-- internal/reflect/reflect.go.
use frugal.Base.{ℕ, List, [], ◌∷◌, Option, none, some, Outcome, ok, panic, fault}
use frugal.Wire.{Buf}
use frugal.Types.{DefType, struct_t, map_t, set_t, list_t, ttype_of, key_type, elem_type}
use frugal.Types.{t_struct, t_pointer}
use frugal.Value.{Val, Vals, Entries, num, str, nil, slice, go_map, struct, ptr, end, item}
use frugal.Value.{no_entries, entry}
use frugal.Child.{Child}
use frugal.Desc.{StructDesc}
use frugal.Encode.{Base, null, at, Slice, append_struct, list_append_func}
use frugal.Encode.MapLoop.{GoMap}
use frugal.Encode.MapFast.{map_append_func}
use frugal.Size.{encoded_size, encoded_map_size, encoded_list_size}

-- The struct of a tType's Sd.
unfoldable pub struct_of : DefType → Option ℕ
struct_of (t_struct s) = some s
struct_of (t_pointer t) = struct_of t
struct_of _ = none

-- The functions that the type gives an address, by what lies there. A read that the type does not
-- fit is a fault.
module _ (ds : ℕ → StructDesc) where
  with_desc {ℓ} : {A : Type ℓ} → DefType → (StructDesc → Outcome A) → Outcome A
  with_desc t f = elim (struct_of t) [ none ↦ panic | some s ↦ f (ds s) ]

  -- At a base pointer.
  abbrev struct_func : Base → DefType → Buf → Outcome Buf
  struct_func base t b = elim (ttype_of t) [
    | struct_t ↦ with_desc t (λ sd. append_struct sd b base)
    | _ ↦ panic
  ]

  abbrev struct_size : Base → DefType → Outcome ℕ
  struct_size base t = elim (ttype_of t) [
    | struct_t ↦ with_desc t (λ sd. encoded_size sd base)
    | _ ↦ panic
  ]

  -- A slice, and a map, of the type's elements.
  abbrev slice_func : Slice → DefType → Buf → Outcome Buf
  slice_func h t b = list_append_func (ttype_of (elem_type t)) (elem_type t) b h

  abbrev map_func : GoMap → DefType → Buf → Outcome Buf
  map_func m t b =
      map_append_func (ttype_of (key_type t)) (ttype_of (elem_type t)) (key_type t) (elem_type t) b
        m

  -- Where a zero word lies: a nil slice, a nil map, or a nil pointer.
  abbrev nil_func : DefType → Buf → Outcome Buf
  nil_func t b = elim (ttype_of t) [
    | list_t ↦ slice_func none t b
    | set_t ↦ slice_func none t b
    | map_t ↦ map_func none t b
    | _ ↦ fault
  ]

  abbrev nil_size : DefType → Outcome ℕ
  nil_size t = elim (ttype_of t) [
    | list_t ↦ encoded_list_size (elem_type t) none
    | set_t ↦ encoded_list_size (elem_type t) none
    | map_t ↦ encoded_map_size (key_type t) (elem_type t) none
    | struct_t ↦ struct_size null t
    | _ ↦ fault
  ]

  slice_at : List Child → DefType → Buf → Outcome Buf
  slice_at cs t b = elim (ttype_of t) [
    | list_t ↦ slice_func (some cs) t b
    | set_t ↦ slice_func (some cs) t b
    | _ ↦ fault
  ]

  slice_size : List Child → DefType → Outcome ℕ
  slice_size cs t = elim (ttype_of t) [
    | list_t ↦ encoded_list_size (elem_type t) (some cs)
    | set_t ↦ encoded_list_size (elem_type t) (some cs)
    | _ ↦ fault
  ]

  map_at : ℕ → List (Child × Child) → DefType → Buf → Outcome Buf
  map_at n es t b = elim (ttype_of t) [ map_t ↦ map_func (some (n, es)) t b | _ ↦ fault ]

  map_size : ℕ → List (Child × Child) → DefType → Outcome ℕ
  map_size n es t = elim (ttype_of t) [
    | map_t ↦ encoded_map_size (key_type t) (elem_type t) (some (n, es))
    | _ ↦ fault
  ]

  pointer_size : Child → DefType → Outcome ℕ
  pointer_size c t = elim (ttype_of t) [ struct_t ↦ c.base_size t | _ ↦ fault ]

  abbrev bad_func : DefType → Buf → Outcome Buf
  bad_func t b = fault

  abbrev bad_size : DefType → Outcome ℕ
  bad_size t = fault

  -- EncodedSize reads a pointer at the address it is given: at a struct held by value it finds the
  -- struct's own first word. Of a nil pointer, slice or map this is zero, the word of no struct; what
  -- it finds through any other word is not known.
  abbrev first_word_size : Vals → DefType → Outcome ℕ
  first_word_size (item nil vs) t = elim (ttype_of t) [ struct_t ↦ ok 1 | _ ↦ fault ]
  first_word_size _ t = fault

  unfoldable mutual
    unfolding with_desc slice_at slice_size map_at map_size pointer_size

    pub child : Val → Child
    child (num n) = record {
      val = num n;
      func = bad_func;
      deref = bad_func;
      size_func = bad_size;
      base_size = bad_size;
    }
    child (str s) = record {
      val = str s;
      func = bad_func;
      deref = bad_func;
      size_func = bad_size;
      base_size = bad_size;
    }
    child nil = record {
      val = nil;
      func = nil_func;
      deref = struct_func null;
      size_func = nil_size;
      base_size = bad_size;
    }
    child (slice vs) =
        let cs = children vs in
        record {
          val = slice vs;
          func = slice_at cs;
          deref = bad_func;
          size_func = slice_size cs;
          base_size = bad_size;
        }
    child (go_map n es) =
        let cs = child_entries es in
        record {
          val = go_map n es;
          func = map_at n cs;
          deref = bad_func;
          size_func = map_size n cs;
          base_size = bad_size;
        }
    child (struct vs xb) =
        let cs = children vs in
        record {
          val = struct vs xb;
          func = struct_func (at cs xb);
          deref = bad_func;
          size_func = first_word_size vs;
          base_size = struct_size (at cs xb);
        }
    child (ptr w) =
        let c = child w in
        record {
          val = ptr w;
          func = bad_func;
          deref = c.func;
          size_func = pointer_size c;
          base_size = bad_size;
        }

    pub children : Vals → List Child
    children end = []
    children (item v vs) = child v ∷ children vs

    pub child_entries : Entries → List (Child × Child)
    child_entries no_entries = []
    child_entries (entry k v es) = (child k, child v) ∷ child_entries es

  -- The pointer that Append and EncodedSize pass on: to the struct `v`, or nil.
  unfoldable pub base_of : Val → Outcome Base
  unfolding child
  base_of nil = ok null
  base_of (struct vs xb) = ok (at (children vs) xb)
  base_of _ = fault
