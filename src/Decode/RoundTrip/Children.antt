-- ===== src/Decode/RoundTrip/Children.antt =====
-- The children of a struct, and the struct behind a pointer that has them.
use frugal.Base.{
  ℕ, zero, suc, ◌≤◌, ◌<◌, ◌≡◌, ◌⊎◌, inl, inr, refl, ◌∙◌, arith, true, false, ◌&&◌, Bool-cases,
  length, ◌++◌, List, [], ◌∷◌, some, All, get_elem?,
}
use frugal.Base.{ok}
use frugal.Wire.{Buf}
use frugal.Types.{
  DefType, TType, bool_t, byte_t, double_t, i16_t, i32_t, i64_t, string_t, struct_t, map_t, set_t,
  list_t, enum_t, t_string, t_binary, t_struct, t_pointer,
}
use frugal.Types.{tag, ttype_of, is_enum, fixed_size, elem_type}
use frugal.Value.{Val, Vals, num, str, nil, slice, go_map, struct, ptr, item, len_vals}
use frugal.Child.{is_nil}
use frugal.Desc.{TField, StructDesc, is_string}
use frugal.Desc.Sizes.{IsDesc, SkipsOptional}
use frugal.Desc.Table.{IsTable}
use frugal.Spec.{Form, is_omitted, wire, forms, struct_form}
use frugal.Spec.Typed.{IsTyped, HoldsField, HoldsFields, holds}
use frugal.Decode.Runtime.{Runtime, decode_at, decode_elem}
use frugal.Decode.Fields.{decode_known}
use frugal.Decode.Walk.{decode_type, decode_case}
use frugal.Decode.Unknown.{HasUnknowns, unknown_form}
use frugal.Decode.Result.{fill, new_struct, decoded, places, goods}
use frugal.Decode.Result.{FieldDecodable, FieldsDecodable, IsDecodable, NilDecodable}
use frugal.Decode.RoundTrip.Structs.{Readable}
use frugal.Decode.RoundTrip.FieldLoop.{FieldReads}
use frugal.Decode.RoundTrip.Body.{body_read}
use frugal.Decode.RoundTrip.Shapes.{IsRuntime}
use frugal.Decode.RoundTrip.Nested.{struct_at, laid_struct}

string-ttype : (t : DefType) → is_string (tag t) ≡ true → ttype_of t ≡ string_t
unfolding tag is_enum ttype_of
string-ttype (t_pointer u) h = string-ttype u h
string-ttype t_string h = refl
string-ttype t_binary h = refl
string-ttype _ h = cc

-- A string without a copy is read as a string.
known_elem :
    (rt : Runtime) (ds : ℕ → StructDesc) (d : ℕ) (f : TField) (b : Buf) (old : Val)
    → SkipsOptional f
    → decode_known (decode_type rt ds (suc d)) f f.type b old
      ≡ decode_elem (decode_type rt ds (suc d)) f.type b old
unfolding decode_known decode_elem decode_type fixed_size decode_case
known_elem rt ds d f b old s = elim (Bool-cases f.no_copy) [
  | inl e ↦ let q = string-ttype f.type (s.copies e) in rw (e, q) refl
  | inr e ↦ rw e refl
]

known_at :
    (rt : Runtime) (ds : ℕ → StructDesc) (d : ℕ) (f : TField) (b : Buf) (old : Val)
    → SkipsOptional f
    → 1 ≤ d
    → decode_at rt (decode_known (decode_type rt ds d) f) f.type b old
      ≡ decode_at rt (decode_elem (decode_type rt ds d)) f.type b old
unfolding decode_at
known_at rt ds zero f b old s h = absurd (omega arith)
known_at rt ds (suc d) f b old s h =
    rw (known_elem rt ds d f b old s, known_elem rt ds d f b (rt.fresh (elem_type f.type)) s) refl

module _ (rt : Runtime) (ds : ℕ → StructDesc) where
  nil-positive : (k : TType) (d : ℕ) (t : DefType) → NilDecodable rt ds k d t → 1 ≤ d
  nil-positive struct_t d t (h, _) = omega arith
  nil-positive bool_t d t h = h
  nil-positive byte_t d t h = h
  nil-positive double_t d t h = h
  nil-positive i16_t d t h = h
  nil-positive i32_t d t h = h
  nil-positive i64_t d t h = h
  nil-positive string_t d t h = h
  nil-positive map_t d t h = h
  nil-positive set_t d t h = h
  nil-positive list_t d t h = h
  nil-positive enum_t d t h = h

  pub IsDecodable-positive : (v : Val) (d : ℕ) (t : DefType) → IsDecodable rt ds v d t → 1 ≤ d
  IsDecodable-positive (num n) d t h = h
  IsDecodable-positive (str s) d t h = h
  IsDecodable-positive nil d t h = nil-positive (ttype_of t) d t h
  IsDecodable-positive (slice vs) d t (h, _) = h
  IsDecodable-positive (go_map n es) d t (h, _) = h
  IsDecodable-positive (struct vs xb) d t (h, _) = omega (arith, h)
  IsDecodable-positive (ptr w) d t h = IsDecodable-positive w d (elem_type t) h

  -- What the induction gives of a struct's child, at any place.
  pub record ChildReads (d : ℕ) (vs : Vals) (i : ℕ) (f : TField) : Type 0 where
    pub v : Val
    pub form : Form
    pub r : DefType → Val
    pub form_at : get_elem? (forms ds vs) i ≡ some (v, form)
    pub place_at : get_elem? (places rt ds vs) i ≡ some (v, r)
    pub reads :
        (sd : StructDesc) → (is_omitted f v ≡ true) ⊎ Readable rt (decode_type rt ds d) sd f form r

  pub field_here :
      (d : ℕ) (v : Val) (vs : Vals) (f : TField)
      → SkipsOptional f
      → HoldsField f (some (v, IsTyped ds false v))
      → FieldDecodable d f (some (v, IsDecodable rt ds v))
      → ((rest : Buf) (old : Val)
          → IsTyped ds false v f.type
          → IsDecodable rt ds v d f.type
          → decode_at rt (decode_elem (decode_type rt ds d)) f.type (wire ds v f.type ++ rest) old
            ≡ ok (decoded rt ds v f.type, length (wire ds v f.type)))
      → ChildReads d (item v vs) 0 f
  unfolding wire decoded
  field_here d v vs f s h g ih = record {
    v = v;
    form = wire ds v;
    r = decoded rt ds v;
    form_at = refl;
    place_at = refl;
    reads = λ sd. reads h g;
  }
    where
      reads :
          ((f.can_skip_encode_if_nil && is_nil v) ≡ true) ⊎ IsTyped ds false v f.type
          → (is_omitted f v ≡ true) ⊎ IsDecodable rt ds v d f.type
          → (is_omitted f v ≡ true)
            ⊎ ((rest : Buf) (old : Val)
                → decode_at rt
                    (decode_known (decode_type rt ds d) f)
                    f.type
                    (wire ds v f.type ++ rest)
                    old
                  ≡ ok (decoded rt ds v f.type, length (wire ds v f.type)))
      reads (inl om) g = inl (unfold is_omitted in rw om refl)
      reads (inr h) (inl om) = inl om
      reads (inr h) (inr g) = inr λ rest old.
          (known_at rt ds d f (wire ds v f.type ++ rest) old s (IsDecodable-positive v d f.type g)
            ∙ ih rest old h g)

  -- The fields of a descriptor, each with the child at its offset.
  pub fields_read :
      (d n : ℕ) (vs : Vals) (sd : StructDesc)
      → ((f : TField)
          → SkipsOptional f
          → HoldsField f (get_elem? (holds ds false vs) f.offset)
          → FieldDecodable d f (get_elem? (goods rt ds vs) f.offset)
          → ChildReads d vs f.offset f)
      → (fs : List TField) → All SkipsOptional fs
      → All (λ f. f.offset < n) fs
      → HoldsFields fs (holds ds false vs)
      → FieldsDecodable d fs (goods rt ds vs)
      → All (FieldReads rt (decode_type rt ds d) sd (forms ds vs) (places rt ds vs) n) fs
  fields_read d n vs sd ih [] s inside h g = tt
  fields_read d n vs sd ih (f ∷ fs) (s, ss) (lt, inside) (_, h, hs) (g, gs) =
      let c = ih f s h g in
      (
        record {
          v = c.v;
          form = c.form;
          r = c.r;
          form_at = c.form_at;
          place_at = c.place_at;
          inside = lt;
          reads = c.reads sd;
        },
        fields_read d n vs sd ih fs ss inside hs gs,
      )

  -- A struct behind a pointer, given its children.
  pub pointed_struct :
      (d s : ℕ) (vs : Vals) (xb rest : Buf) (old : Val)
      → IsDesc (ds s)
      → IsTable (ds s)
      → IsRuntime rt ds
      → HasUnknowns rt (ds s) xb
      → ((n : ℕ)
          → All (λ f. f.offset < n) (ds s).fields
          → All
              (FieldReads rt (decode_type rt ds d) (ds s) (forms ds vs) (places rt ds vs) n)
              (ds s).fields)
      → decode_at rt
          (decode_elem (decode_type rt ds (suc (suc d))))
          (t_pointer (t_struct s))
          (struct_form (ds s) (forms ds vs) xb ++ rest)
          old
        ≡ ok (
          ptr (fill (ds s) (places rt ds vs) xb (new_struct rt ds s)),
          length (struct_form (ds s) (forms ds vs) xb),
        )
  unfolding fill
  pointed_struct d s vs xb rest old desc table run (pieces, e, us) reads =
      let l = run.laid s in
      let w = struct_form (ds s) (forms ds vs) (unknown_form pieces) in
      rw (e, l.shape)
        (struct_at rt ds d s (w ++ rest) old _ (length w) (
          laid_struct rt ds d s (w ++ rest) l
          ∙ body_read rt (decode_type rt ds d) (ds s) (forms ds vs) (places rt ds vs) desc table d
              pieces rest l.yb l.ws (λ b. run.pool d b) run.mem us
              (reads (len_vals l.ws) l.inside)))
