-- ===== src/Parse/Fits.antt =====
-- The types that the parser of type descriptors returns: that they describe the Go type.
use frugal.Base.{ℕ, ◌≡◌, refl, Bool, true, false, [], ◌∷◌, Bool-cases, inl, inr}
use frugal.Base.{Outcome, if◌then◌else◌, Answers, Answers-bind, Answers-if}
use mathlib.Core.Bool.{not}
use frugal.Wire.{Buf}
use frugal.Child.{bytes_eq}
use frugal.Types.{
  DefType, t_bool, t_i8, t_double, t_i16, t_i32, t_i64, t_string, t_enum, t_binary, t_struct, t_map,
  t_set, t_list, t_pointer,
}
use frugal.Types.{is_key_type, is_value_type}
use frugal.Parse.{
  GoKind, bool_kind, int_kind, int8_kind, int16_kind, int32_kind, int64_kind, uint_kind, uint8_kind,
  uint16_kind, uint32_kind, uint64_kind, float32_kind, float64_kind, string_kind, unsupported,
}
use frugal.Parse.{
  GoType, basic, struct_type, map_type, slice_type, array_type, ptr_type, is_byte, is_i64,
}
use frugal.Parse.{
  read_token, match_type, delimiter, map_delimiter, keyword_tab, tag_of_kind, enum_tag,
  parse_simple, parse_map, set_or_list, do_parse_slice, do_parse_type, parse_type,
}
use frugal.Parse.Tokens.{
  Anything, IsToken, read_token-Answers, match_type-Answers, delimiter-Answers,
  map_delimiter-Answers,
}

-- A variable of the kind holds what the Thrift type says.
abbrev pub KindFits : GoKind → DefType → Type 0
KindFits bool_kind t_bool = Unit
KindFits int_kind t_i64 = Unit
KindFits int_kind t_enum = Unit
KindFits int8_kind t_i8 = Unit
KindFits int16_kind t_i16 = Unit
KindFits int32_kind t_i32 = Unit
KindFits int64_kind t_i64 = Unit
KindFits int64_kind t_enum = Unit
KindFits float64_kind t_double = Unit
KindFits string_kind t_string = Unit
KindFits _ _ = ⊥

-- The Thrift type describes the memory of the Go type, and its keys and elements are allowed.
abbrev pub Fits : GoType → DefType → Type 0
Fits (basic declared k tn) t = KindFits k t
Fits (struct_type tn s) (t_struct s') = s ≡ s'
Fits (map_type tn k v) (t_map kt vt) =
    (is_key_type kt ≡ true) × (is_value_type vt ≡ true) × Fits k kt × Fits v vt
Fits (slice_type tn e) t_binary = is_byte e ≡ true
Fits (slice_type tn e) (t_set t) = (is_value_type t ≡ true) × Fits e t
Fits (slice_type tn e) (t_list t) = (is_value_type t ≡ true) × Fits e t
Fits (ptr_type e) (t_pointer t) = Fits e t
Fits _ _ = ⊥

-- No pointer leads to a pointer, outside structs; `allow_ptrs` is whether one may come first.
abbrev pub IsFlat : Bool → GoType → Type 0
IsFlat b (ptr_type vt) = elim b [ true ↦ IsFlat false vt | false ↦ ⊥ ]
IsFlat b (map_type tn k v) = IsFlat true k × IsFlat true v
IsFlat b (slice_type tn e) = IsFlat true e
IsFlat b _ = Unit

-- A tag that the type's own name has matched.
enum_tag-Fits :
    (declared : Bool) (k : GoKind) (tn : Buf) (t : DefType) (by_name : Bool)
    → KindFits k t
    → KindFits k (enum_tag t by_name (is_i64 (basic declared k tn)))
unfolding enum_tag
enum_tag-Fits declared int_kind tn t_i64 by_name h = either _
  where
    either : (c : Bool) → KindFits int_kind (if c then t_enum else t_i64)
    either true = tt
    either false = tt
enum_tag-Fits declared int64_kind tn t_i64 by_name h = either _
  where
    either : (c : Bool) → KindFits int64_kind (if c then t_enum else t_i64)
    either true = tt
    either false = tt
enum_tag-Fits declared _ tn t_i64 by_name h = absurd h
enum_tag-Fits declared k tn _ by_name h = h

tag_of_kind-Answers : (k : GoKind) → Answers (KindFits k) (tag_of_kind k)
unfolding tag_of_kind
tag_of_kind-Answers bool_kind = tt
tag_of_kind-Answers int_kind = tt
tag_of_kind-Answers int8_kind = tt
tag_of_kind-Answers int16_kind = tt
tag_of_kind-Answers int32_kind = tt
tag_of_kind-Answers int64_kind = tt
tag_of_kind-Answers uint_kind = tt
tag_of_kind-Answers uint8_kind = tt
tag_of_kind-Answers uint16_kind = tt
tag_of_kind-Answers uint32_kind = tt
tag_of_kind-Answers uint64_kind = tt
tag_of_kind-Answers float32_kind = tt
tag_of_kind-Answers float64_kind = tt
tag_of_kind-Answers string_kind = tt
tag_of_kind-Answers unsupported = tt

abbrev Parses : GoType → DefType × ℕ → Type 0
Parses vt r = Fits vt r.0

parse_simple-Answers :
    (vt : GoType) (tn : Buf) (is_struct i64 : Bool) (t : DefType) (def : Buf) (i : ℕ)
    → ((by_name : Bool) → Fits vt (enum_tag t by_name i64))
    → Answers (Parses vt) (parse_simple tn is_struct i64 t def i)
unfolding parse_simple
parse_simple-Answers vt tn is_struct i64 t def i h =
    Answers-bind Anything _ (match_type tn is_struct (keyword_tab t) def i) _
      (match_type-Answers tn is_struct (keyword_tab t) def i) λ (by_name, j) _. h by_name

not-false : (b : Bool) → not b ≡ false → b ≡ true
not-false true h = refl
not-false false h = cc

parse_map-Answers :
    (tn : Buf) (kt vt : GoType) (pk pv : ℕ → Outcome (DefType × ℕ)) (def : Buf) (i : ℕ)
    → ((j : ℕ) → Answers (Parses kt) (pk j))
    → ((j : ℕ) → Answers (Parses vt) (pv j))
    → Answers (Parses (map_type tn kt vt)) (parse_map tn pk pv def i)
unfolding parse_map
parse_map-Answers tn kt vt pk pv def i hk hv =
    let kw = keyword_tab (t_map t_bool t_bool) in
    Answers-bind Anything _ (match_type tn false kw def i) _ (match_type-Answers tn false kw def i)
      λ (_, i₁) _.
        Answers-bind Anything _ (map_delimiter 60 def i₁) _ (map_delimiter-Answers 60 def i₁)
          λ i₂ _. Answers-bind (Parses kt) _ (pk i₂) _ (hk i₂) λ (k, i₃) fk.
            Answers-if _ (not (is_key_type k)) _ _ (λ e. tt)
              λ ek.
                Answers-bind Anything _ (map_delimiter 58 def i₃) _
                  (map_delimiter-Answers 58 def i₃)
                  λ i₄ _. Answers-bind (Parses vt) _ (pv i₄) _ (hv i₄) λ (v, i₅) fv.
                    Answers-bind Anything _ (map_delimiter 62 def i₅) _
                      (map_delimiter-Answers 62 def i₅)
                      λ i₆ _.
                        Answers-if _ (not (is_value_type v)) _ _ (λ e. tt)
                          λ ev.
                            (not-false (is_key_type k) ek, not-false (is_value_type v) ev, fk, fv)

abbrev Makes : Buf → GoType → (DefType → DefType) → Type 0
Makes tn vt make =
    (t : DefType) → is_value_type t ≡ true → Fits vt t → Fits (slice_type tn vt) (make t)

set_or_list-Answers :
    (tn : Buf) (vt : GoType) (tok : Buf) (i : ℕ) → Answers (Makes tn vt) (set_or_list tok i)
unfolding set_or_list
set_or_list-Answers tn vt tok i =
    Answers-if _ (bytes_eq tok (115 ∷ 101 ∷ 116 ∷ [])) _ _ (λ e t v f. (v, f))
      λ e.
        Answers-if _ (bytes_eq tok (108 ∷ 105 ∷ 115 ∷ 116 ∷ [])) _ _ (λ e t v f. (v, f)) (λ e. tt)

do_parse_slice-Answers :
    (tn : Buf) (et : GoType) (pe : ℕ → Outcome (DefType × ℕ)) (def : Buf) (i : ℕ)
    → ((j : ℕ) → Answers (Parses et) (pe j))
    → Answers (Parses (slice_type tn et)) (do_parse_slice pe def i)
unfolding do_parse_slice
do_parse_slice-Answers tn et pe def i h =
    Answers-bind (IsToken false) _ (read_token def i false) _ (read_token-Answers def i false)
      λ (tok, i₁) _.
        Answers-bind (Makes tn et) _ (set_or_list tok i₁) _ (set_or_list-Answers tn et tok i₁)
          λ make mk.
            Answers-bind Anything _ (delimiter 60 def i₁) _ (delimiter-Answers 60 def i₁) λ i₂ _.
              Answers-bind (Parses et) _ (pe i₂) _ (h i₂) λ (v, i₃) f.
                Answers-bind Anything _ (delimiter 62 def i₃) _ (delimiter-Answers 62 def i₃)
                  λ i₄ _.
                    Answers-if _ (not (is_value_type v)) _ _ (λ e. tt)
                      λ ev. mk v (not-false (is_value_type v) ev) f

do_parse_type-Answers :
    (vt : GoType) (def : Buf) (i : ℕ) (b : Bool)
    → IsFlat b vt
    → Answers (Parses vt) (do_parse_type vt def i b)
unfolding do_parse_type enum_tag
do_parse_type-Answers (ptr_type vt) def i true h =
    Answers-bind (Parses vt) _ (do_parse_type vt def i false) _
      (do_parse_type-Answers vt def i false h) λ r f. f
do_parse_type-Answers (ptr_type vt) def i false h = absurd h
do_parse_type-Answers (basic declared k tn) def i b h =
    Answers-bind (KindFits k) _ (tag_of_kind k) _ (tag_of_kind-Answers k) λ t f.
      parse_simple-Answers (basic declared k tn) tn false (is_i64 (basic declared k tn)) t def i
        λ by_name. enum_tag-Fits declared k tn t by_name f
do_parse_type-Answers (struct_type tn s) def i b h =
    parse_simple-Answers (struct_type tn s) tn true false (t_struct s) def i λ by_name. refl
do_parse_type-Answers (map_type tn k v) def i b h =
    parse_map-Answers tn k v _ _ def i (λ j. do_parse_type-Answers k def j true h.0)
      (λ j. do_parse_type-Answers v def j true h.1)
do_parse_type-Answers (slice_type tn e) def i b h = elim (Bool-cases (is_byte e)) [
  | inl q ↦ rw q (parse_simple-Answers (slice_type tn e) tn false false t_binary def i λ by_name. q)
  | inr q ↦ rw q (
      Answers-if _ (bytes_eq def []) _ _ (λ e. tt)
        λ _. do_parse_slice-Answers tn e _ def i (λ j. do_parse_type-Answers e def j true h))
]
do_parse_type-Answers (array_type e) def i b h = tt

-- On every Go type that has no pointer to a pointer and does not hold itself other than through a
-- struct (on `type M map[string]M` with an empty descriptor it never returns), and for every type descriptor, ParseType
-- returns: a syntax error, a type error, or a Thrift type that describes the Go type, with map keys
-- and with values and elements that are allowed. It does not panic.
pub parse_type-Answers :
    (vt : GoType) (def : Buf) → IsFlat true vt → Answers (Fits vt) (parse_type vt def)
unfolding parse_type
parse_type-Answers vt def h =
    Answers-bind (Parses vt) _ (do_parse_type vt def 0 true) _
      (do_parse_type-Answers vt def 0 true h) λ (t, i) f. f
