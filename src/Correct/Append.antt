-- ===== src/Correct/Append.antt =====
-- appendAny and appendStruct append the wire form of every value of the type.
use frugal.Base.{ℕ, zero, suc, ◌^◌, ◌<◌, ◌≡◌, refl, sym, ap, ◌∙◌, arith, Bool, true}
use frugal.Base.{[], ◌++◌, some, append-nil, append_assoc, get_elem?}
use frugal.Base.{ok, length}
use frugal.Wire.{Buf}
use frugal.Types.{DefType, t_bool, t_i8, t_double, t_i16, t_i32, t_i64, t_string, t_enum}
use frugal.Types.{t_binary, t_struct, t_map, t_set, t_list, t_pointer, ttype_of}
use frugal.Types.{is_pointer, simple_type, is_key_type, is_value_type, key_type, elem_type}
use frugal.Value.{Val, Vals, Entries, num, str, nil, slice, go_map, struct, ptr, end, item}
use frugal.Value.{no_entries, entry, len_vals, len_entries}
use frugal.Child.{at_child}
use frugal.Codec.{child, children, child_entries, struct_of}
use frugal.Desc.{TField, StructDesc}
use frugal.Desc.Sizes.{SkipsOptional, IsDesc}
use frugal.Encode.{append_any, append_field, append_field_at, list_loop}
use frugal.Encode.{append_struct, at, append_other, append_simple}
use frugal.Encode.MapLoop.{map_loop, check_map_n}
use frugal.Spec.{wire, forms, wires, wire_entries, field_form, struct_form}
use frugal.Spec.Typed.{is_read_whole, IsTyped, holds, AllTyped, EntriesTyped, HasReadableDefault}
use frugal.Spec.Typed.{HoldsField, IsWord, IsText}
use frugal.Correct.Scalars.{
  append_simple-word, append_simple-text, append_any-word, append_any-text,
}
use frugal.Correct.Fields.{append_field_at-form}
use frugal.Correct.Loops.{struct-append, decrement-suc}
use frugal.Correct.FastPaths.{IsBool, HasBools}
use frugal.Correct.Shapes.{append_any-nil, append_any-list, append_any-set, append_any-map}

module _ (ds : ℕ → StructDesc) where
  pub child-val : (v : Val) → (child ds v).val ≡ v
  unfolding child
  child-val (num n) = refl
  child-val _ = refl

  pub length-children : (vs : Vals) → length (children ds vs) ≡ len_vals vs
  unfolding child
  length-children end = refl
  length-children (item v vs) = ap suc (length-children vs)

  -- The bools among a map's keys and values are 0 or 1, as their types say.
  IsTyped-IsBool :
      (by_value : Bool) (t : DefType) (v : Val)
      → IsTyped ds by_value v t
      → IsBool t (child ds v).val
  IsTyped-IsBool by_value t_bool (num n) h = unfold child in h
  IsTyped-IsBool by_value t_bool nil h = absurd h
  IsTyped-IsBool by_value t_bool (str s) h = absurd h.0
  IsTyped-IsBool by_value t_bool (slice vs) h = absurd h
  IsTyped-IsBool by_value t_bool (go_map n es) h = absurd h
  IsTyped-IsBool by_value t_bool (struct vs xb) h = absurd h.1
  IsTyped-IsBool by_value t_bool (ptr w) h = absurd h
  IsTyped-IsBool by_value _ v h = tt

  EntriesTyped-HasBools :
      (by_value : Bool) (es : Entries) (kt vt : DefType)
      → EntriesTyped ds by_value es kt vt
      → HasBools kt vt (child_entries ds es)
  unfolding child
  EntriesTyped-HasBools by_value no_entries kt vt h = tt
  EntriesTyped-HasBools by_value (entry k v es) kt vt (hk, hv, h) = (
    IsTyped-IsBool by_value kt k hk,
    IsTyped-IsBool by_value vt v hv,
    EntriesTyped-HasBools by_value es kt vt h,
  )

wire_entries-nil :
    (ds : ℕ → StructDesc) (es : Entries) (kt vt : DefType)
    → len_entries es ≡ 0
    → wire_entries ds es kt vt ≡ []
unfolding wire
wire_entries-nil ds no_entries kt vt h = refl
wire_entries-nil ds (entry k v es) kt vt h = absurd (omega arith)

regroup : (b x y z : Buf) → ((b ++ x) ++ y) ++ z ≡ b ++ (x ++ (y ++ z))
regroup b x y z = simp append_assoc

-- The shapes, with the forms in the words of `wire`.
module _ (ds : ℕ → StructDesc) where
  list_case :
      (e : DefType) (b : Buf) (vs : Vals)
      → is_value_type e ≡ true
      → len_vals vs < 2 ^ 31
      → ((b : Buf)
          → list_loop (append_any e) (len_vals vs) (children ds vs) b ≡ ok (b ++ wires ds vs e))
      → (append_any (t_list e) b (child ds (slice vs)) ≡ ok (b ++ wire ds (slice vs) (t_list e)))
        × (append_any (t_set e) b (child ds (slice vs)) ≡ ok (b ++ wire ds (slice vs) (t_set e)))
  unfolding wire elem_type
  list_case e b vs he l loop =
      let q = length-children ds vs in
      let loop' : (b : Buf)
          → list_loop (append_any e) (length (children ds vs)) (children ds vs) b
            ≡ ok (b ++ wires ds vs e) =
        λ b. rw q (loop b) in
      (
        rw q at (append_any-list ds e b vs (wires ds vs e) he (rw q l) loop'),
        rw q at (append_any-set ds e b vs (wires ds vs e) he (rw q l) loop'),
      )

  pointer_word :
      (t : DefType) (b : Buf) (n : ℕ)
      → IsWord n t
      → append_any (t_pointer t) b (child ds (ptr (num n))) ≡ append_simple (ttype_of t) b (num n)
  unfolding append_any simple_type is_pointer child ttype_of
  pointer_word t_bool b n h = refl
  pointer_word t_i8 b n h = refl
  pointer_word t_double b n h = refl
  pointer_word t_i16 b n h = refl
  pointer_word t_i32 b n h = refl
  pointer_word t_i64 b n h = refl
  pointer_word t_enum b n h = refl
  pointer_word _ b n h = absurd h

  pointer_text :
      (t : DefType) (b s : Buf)
      → IsText t
      → append_any (t_pointer t) b (child ds (ptr (str s))) ≡ append_simple (ttype_of t) b (str s)
  unfolding append_any simple_type is_pointer child ttype_of
  pointer_text t_string b s h = refl
  pointer_text t_binary b s h = refl
  pointer_text _ b s h = absurd h

  map_case :
      (k v : DefType) (b : Buf) (n : ℕ) (es : Entries)
      → is_key_type k ≡ true
      → is_value_type v ≡ true
      → is_read_whole k v ≡ true
      → n ≡ len_entries es
      → n < 2 ^ 31
      → HasBools k v (child_entries ds es)
      → ((b : Buf)
          → map_loop (append_any k) (append_any v) (len_entries es) (child_entries ds es) b
            ≡ ok (b ++ wire_entries ds es k v))
      → append_any (t_map k v) b (child ds (go_map n es))
        ≡ ok (b ++ wire ds (go_map n es) (t_map k v))
  unfolding wire elem_type key_type
  map_case k v b n es hk hv r e l bools loop =
      append_any-map ds k v b n es (wire_entries ds es k v) hk hv r l
        (λ z. wire_entries-nil ds es k v (sym e ∙ z)) bools (λ b. rw e (loop b))

  field_case :
      (by_value : Bool) (v : Val) (f : TField) (b : Buf)
      → SkipsOptional f
      → HasReadableDefault f
      → HoldsField f (some (v, IsTyped ds by_value v))
      → (IsTyped ds by_value v f.type
          → (b : Buf) → append_any f.type b (child ds v) ≡ ok (b ++ wire ds v f.type))
      → append_field_at f b (child ds v) ≡ ok (b ++ field_form f (some (v, wire ds v)))
  unfolding child
  field_case by_value v f b s d h ih =
      let e = child-val ds v in
      rw e at (
        append_field_at-form ds by_value f s b (child ds v) (wire ds v) d (rw e h)
          (λ hv. ih (rw e at hv)))

  -- A struct, by value and behind a pointer.
  struct_case :
      (s : ℕ) (b : Buf) (vs : Vals) (xb : Buf)
      → append_struct (ds s) b (at (children ds vs) xb)
        ≡ ok (b ++ struct_form (ds s) (forms ds vs) xb)
      → (append_any (t_struct s) b (child ds (struct vs xb))
          ≡ ok (b ++ wire ds (struct vs xb) (t_struct s)))
        × (append_any (t_pointer (t_struct s)) b (child ds (ptr (struct vs xb)))
            ≡ ok (b ++ wire ds (ptr (struct vs xb)) (t_pointer (t_struct s))))
  unfolding append_any append_other simple_type is_pointer child ttype_of struct_of wire elem_type
  struct_case s b vs xb h = (h, h)

module _ (ds : ℕ → StructDesc) (descs : (s : ℕ) → IsDesc (ds s)) (by_value : Bool) where
  mutual
    unfolding child wire list_loop map_loop check_map_n append_field elem_type

    append_child :
        (v : Val) (t : DefType) (b : Buf)
        → IsTyped ds by_value v t
        → append_any t b (child ds v) ≡ ok (b ++ wire ds v t)
    append_child (num n) t b h = append_any-word t b _ n refl h ∙ append_simple-word t b n h
    append_child (str s) t b h =
        append_any-text t b _ (str s) refl h.0 ∙ append_simple-text t b s h.0
    append_child nil t b h = append_any-nil ds t b h
    append_child (slice vs) (t_list e) b (he, l, h) =
        (list_case ds e b vs he l (λ b. append_elems vs e b h)).0
    append_child (slice vs) (t_set e) b (he, l, h) =
        (list_case ds e b vs he l (λ b. append_elems vs e b h)).1
    append_child (slice vs) _ b h = absurd h
    append_child (go_map n es) (t_map k v) b (hk, hv, e, l, r, h) =
        map_case ds k v b n es hk hv r e l (EntriesTyped-HasBools ds by_value es k v h)
          (λ b. append_entries es k v b (rw (← e) l) h)
    append_child (go_map n es) _ b h = absurd h
    append_child (struct vs xb) (t_struct s) b (_, h) =
        (struct_case ds s b vs xb (
          struct-append (children ds vs) (forms ds vs) (holds ds by_value vs)
            (λ f b sk d hf. append_field_child vs f.offset f b sk d hf) (ds s) b xb (descs s).skips
            h)).0
    append_child (struct vs xb) _ b h = absurd h.1
    append_child (ptr (num n)) (t_pointer t) b h =
        pointer_word ds t b n h ∙ append_simple-word t b n h
    append_child (ptr (str s)) (t_pointer t) b h =
        pointer_text ds t b s h.0 ∙ append_simple-text t b s h.0
    append_child (ptr (struct vs xb)) (t_pointer (t_struct s)) b h =
        (struct_case ds s b vs xb (
          struct-append (children ds vs) (forms ds vs) (holds ds by_value vs)
            (λ f b sk d hf. append_field_child vs f.offset f b sk d hf) (ds s) b xb (descs s).skips
            h)).1
    append_child (ptr nil) (t_pointer t) b h = absurd h
    append_child (ptr (slice vs)) (t_pointer t) b h = absurd h
    append_child (ptr (go_map n es)) (t_pointer t) b h = absurd h
    append_child (ptr (ptr w)) (t_pointer t) b h = absurd h
    append_child (ptr w) _ b h = absurd h

    pub append_field_child :
        (vs : Vals) (i : ℕ) (f : TField) (b : Buf)
        → SkipsOptional f
        → HasReadableDefault f
        → HoldsField f (get_elem? (holds ds by_value vs) i)
        → at_child (get_elem? (children ds vs) i) (λ c. append_field_at f b c)
          ≡ ok (b ++ field_form f (get_elem? (forms ds vs) i))
    append_field_child end i f b s d h = absurd h
    append_field_child (item v vs) zero f b s d h =
        field_case ds by_value v f b s d h (λ hv b. append_child v f.type b hv)
    append_field_child (item v vs) (suc i) f b s d h = append_field_child vs i f b s d h

    append_elems :
        (vs : Vals) (t : DefType) (b : Buf)
        → AllTyped ds by_value vs t
        → list_loop (append_any t) (len_vals vs) (children ds vs) b ≡ ok (b ++ wires ds vs t)
    append_elems end t b h = ap ok (sym (append-nil b))
    append_elems (item v vs) t b (hv, h) = rw (append_child v t b hv) (
        append_elems vs t (b ++ wire ds v t) h
        ∙ ap ok (append_assoc b (wire ds v t) (wires ds vs t)))

    append_entries :
        (es : Entries) (kt vt : DefType) (b : Buf)
        → len_entries es < 2 ^ 31
        → EntriesTyped ds by_value es kt vt
        → map_loop (append_any kt) (append_any vt) (len_entries es) (child_entries ds es) b
          ≡ ok (b ++ wire_entries ds es kt vt)
    append_entries no_entries kt vt b l h = ap ok (sym (append-nil b))
    append_entries (entry k v es) kt vt b l (hk, hv, h) =
        rw
          (
            append_child k kt b hk,
            append_child v vt (b ++ wire ds k kt) hv,
            decrement-suc (len_entries es) l,
          )
          (append_entries es kt vt _ (omega arith) h
            ∙ ap ok (regroup b (wire ds k kt) (wire ds v vt) (wire_entries ds es kt vt)))
