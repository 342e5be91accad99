-- ===== src/Names/Distinct.antt =====
-- The types that one Go type can have are told apart by their strings.
use frugal.Base.{
  ℕ, ◌≡◌, ◌≢◌, ◌⊎◌, inl, inr, refl, sym, ap, ◌∙◌, [], ◌∷◌, ◌++◌, append_assoc, true, arith, ok,
  Answers,
}
use mathlib.Core.Path.{subst}
use frugal.Wire.{Buf}
use frugal.Types.{
  DefType, t_bool, t_i8, t_double, t_i16, t_i32, t_i64, t_string, t_enum, t_binary, t_struct, t_map,
  t_set, t_list, t_pointer,
}
use frugal.Parse.{
  GoKind, bool_kind, int_kind, int8_kind, int16_kind, int32_kind, int64_kind, float64_kind,
  string_kind,
}
use frugal.Parse.{GoType, basic, struct_type, map_type, slice_type, ptr_type, parse_type}
use frugal.Parse.Fits.{KindFits, Fits, IsFlat, parse_type-Answers}
use frugal.Names.{type_string}

-- The type of a kind, if it is no enum.
abbrev plain : GoKind → DefType
plain bool_kind = t_bool
plain int8_kind = t_i8
plain int16_kind = t_i16
plain int32_kind = t_i32
plain float64_kind = t_double
plain string_kind = t_string
plain _ = t_i64

KindFits-plain :
    (k : GoKind) (t : DefType) → KindFits k t → (t ≡ plain k) ⊎ ((t ≡ t_enum) × (plain k ≡ t_i64))
KindFits-plain bool_kind t_bool h = inl refl
KindFits-plain int_kind t_i64 h = inl refl
KindFits-plain int_kind t_enum h = inr (refl, refl)
KindFits-plain int8_kind t_i8 h = inl refl
KindFits-plain int16_kind t_i16 h = inl refl
KindFits-plain int32_kind t_i32 h = inl refl
KindFits-plain int64_kind t_i64 h = inl refl
KindFits-plain int64_kind t_enum h = inr (refl, refl)
KindFits-plain float64_kind t_double h = inl refl
KindFits-plain string_kind t_string h = inl refl
KindFits-plain _ _ h = absurd h

tail_inj : (c : ℕ) (x y : Buf) → c ∷ x ≡ c ∷ y → x ≡ y
tail_inj c x y e = cc

head_inj : (c d : ℕ) (x y : Buf) → c ∷ x ≡ d ∷ y → c ≡ d
head_inj c d x y e = cc

apart : (c d : ℕ) (x y : Buf) → c ∷ x ≡ d ∷ y → c ≢ d → ⊥
apart c d x y e n = n (head_inj c d x y e)

append_inj : (b x y : Buf) → b ++ x ≡ b ++ y → x ≡ y
append_inj [] x y e = e
append_inj (c ∷ b) x y e = append_inj b x y (tail_inj c (b ++ x) (b ++ y) e)

module _ (name : ℕ → Buf) where
  -- The same type is in front, and what is behind it is the same too.
  abbrev IsRead : DefType → DefType → Buf → Buf → Type 0
  IsRead t u x y = (t ≡ u) × (x ≡ y)

  same_front :
      (t u : DefType) (x y : Buf)
      → t ≡ u
      → type_string name t ++ x ≡ type_string name u ++ y
      → IsRead t u x y
  same_front t u x y q e =
      (q, append_inj (type_string name t) x y (e ∙ ap (λ z. type_string name z ++ y) (sym q)))

  enum_i64 : (x y : Buf) → type_string name t_enum ++ x ≡ type_string name t_i64 ++ y → ⊥
  unfolding type_string
  enum_i64 x y e = absurd (apart 101 105 _ _ e (omega arith))

  closed :
      (s u x y : Buf)
      → (s ++ (62 ∷ [])) ++ x ≡ (u ++ (62 ∷ [])) ++ y
      → s ++ (62 ∷ x) ≡ u ++ (62 ∷ y)
  closed s u x y e = sym (append_assoc s (62 ∷ []) x) ∙ e ∙ append_assoc u (62 ∷ []) y

  plain-IsRead :
      (k : GoKind) (t u : DefType) (x y : Buf)
      → KindFits k t
      → KindFits k u
      → type_string name t ++ x ≡ type_string name u ++ y
      → IsRead t u x y
  plain-IsRead k t u x y h j e = elim (KindFits-plain k t h) [
    | inl p ↦ elim (KindFits-plain k u j) [
      | inl q ↦ same_front t u x y (p ∙ sym q) e
      | inr q ↦ absurd (
          enum_i64 y x (
            ap (λ z. type_string name z ++ y) (sym q.0)
            ∙ sym e
            ∙ ap (λ z. type_string name z ++ x) (p ∙ q.1)))
    ]
    | inr p ↦ elim (KindFits-plain k u j) [
      | inl q ↦ absurd (
          enum_i64 x y (
            ap (λ z. type_string name z ++ x) (sym p.0)
            ∙ e
            ∙ ap (λ z. type_string name z ++ y) (q ∙ p.1)))
      | inr q ↦ same_front t u x y (p.0 ∙ sym q.0) e
    ]
  ]

  type_string-IsRead :
      (g : GoType) (t u : DefType) (x y : Buf)
      → Fits g t
      → Fits g u
      → type_string name t ++ x ≡ type_string name u ++ y
      → IsRead t u x y
  unfolding type_string
  type_string-IsRead (basic declared k tn) t u x y h j e = plain-IsRead k t u x y h j e
  type_string-IsRead (struct_type tn s) (t_struct a) (t_struct b) x y h j e =
      same_front (t_struct a) (t_struct b) x y (ap t_struct (sym h ∙ j)) e
  type_string-IsRead (map_type tn k v) (t_map a b) (t_map c d) x y h j e =
      let rest : DefType → Buf → Buf = λ r z. 58 ∷ ((type_string name r ++ (62 ∷ [])) ++ z) in
      let (p, q) = type_string-IsRead k a c (rest b x) (rest d y) h.2 j.2 (
        sym (append_assoc (type_string name a) (58 ∷ (type_string name b ++ (62 ∷ []))) x)
        ∙ (tail_inj 60 _ _ (tail_inj 112 _ _ (tail_inj 97 _ _ (tail_inj 109 _ _ e))))
        ∙ append_assoc (type_string name c) (58 ∷ (type_string name d ++ (62 ∷ []))) y) in
      let (r, z) =
        type_string-IsRead v b d (62 ∷ x) (62 ∷ y) h.3 j.3
          (closed (type_string name b) (type_string name d) x y (tail_inj 58 _ _ q)) in
      (ap (λ w. t_map w b) p ∙ ap (λ w. t_map c w) r, tail_inj 62 x y z)
  type_string-IsRead (slice_type tn g) t_binary t_binary x y h j e =
      same_front t_binary t_binary x y refl e
  type_string-IsRead (slice_type tn g) t_binary (t_set b) x y h j e =
      absurd (apart 98 115 _ _ e (omega arith))
  type_string-IsRead (slice_type tn g) t_binary (t_list b) x y h j e =
      absurd (apart 98 108 _ _ e (omega arith))
  type_string-IsRead (slice_type tn g) (t_set a) t_binary x y h j e =
      absurd (apart 115 98 _ _ e (omega arith))
  type_string-IsRead (slice_type tn g) (t_set a) (t_set b) x y h j e =
      let (p, q) = type_string-IsRead g a b (62 ∷ x) (62 ∷ y) h.1 j.1 (
        closed (type_string name a) (type_string name b) x y
          (tail_inj 60 _ _ (tail_inj 116 _ _ (tail_inj 101 _ _ (tail_inj 115 _ _ e))))) in
      (ap t_set p, tail_inj 62 x y q)
  type_string-IsRead (slice_type tn g) (t_set a) (t_list b) x y h j e =
      absurd (apart 115 108 _ _ e (omega arith))
  type_string-IsRead (slice_type tn g) (t_list a) t_binary x y h j e =
      absurd (apart 108 98 _ _ e (omega arith))
  type_string-IsRead (slice_type tn g) (t_list a) (t_set b) x y h j e =
      absurd (apart 108 115 _ _ e (omega arith))
  type_string-IsRead (slice_type tn g) (t_list a) (t_list b) x y h j e =
      let (p, q) = type_string-IsRead g a b (62 ∷ x) (62 ∷ y) h.1 j.1 (
        closed (type_string name a) (type_string name b) x y (
          tail_inj 60 _ _
            (tail_inj 116 _ _ (tail_inj 115 _ _ (tail_inj 105 _ _ (tail_inj 108 _ _ e)))))) in
      (ap t_list p, tail_inj 62 x y q)
  type_string-IsRead (ptr_type g) (t_pointer a) (t_pointer b) x y h j e =
      let (p, q) = type_string-IsRead g a b x y h j (tail_inj 42 _ _ e) in (ap t_pointer p, q)
  type_string-IsRead _ _ _ x y h j e = ground arith

  -- Two types that ParseType returns for one Go type, which has no pointer to a pointer, and that
  -- have the same String are the same type: so newTType finds under the String and the Go type only
  -- the tType of that type.
  pub type_string-parse_type :
      (vt : GoType) (def def' : Buf) (t u : DefType)
      → IsFlat true vt
      → parse_type vt def ≡ ok t
      → parse_type vt def' ≡ ok u
      → type_string name t ≡ type_string name u
      → t ≡ u
  type_string-parse_type vt def def' t u f h j e =
      (type_string-IsRead vt t u [] [] (subst (Answers (Fits vt)) h (parse_type-Answers vt def f))
        (subst (Answers (Fits vt)) j (parse_type-Answers vt def' f)) (ap (λ z. z ++ []) e)).0
