-- ===== src/Correct/Scalars.antt =====
-- `appendAny` on words and texts, and the comparison with a default value.
use frugal.Base.{ℕ, ◌%◌, ◌≡◌, refl, ap, ◌∙◌, arith, Bool, false}
use frugal.Base.{[], ◌∷◌, ◌++◌, Option, none, some, length, append_assoc, ok}
use frugal.Base.{Bool-cases, inl, inr}
use frugal.Wire.{Buf}
use frugal.Types.{DefType, TType, t_bool, t_i8, t_double, t_i16, t_i32, t_i64, t_string, t_enum}
use frugal.Types.{t_binary, ttype_of, fixed_size}
use frugal.Types.{bool_t, byte_t, double_t, i16_t, i32_t, i64_t, string_t, struct_t, map_t, set_t}
use frugal.Types.{list_t, enum_t, is_pointer, simple_type}
use frugal.Value.{Val, num, str, nil}
use frugal.Child.{Child, equal}
use frugal.Desc.{TField, StructDesc}
use frugal.Desc.Sizes.{SkipsOptional}
use frugal.Encode.{append_simple, append_any, skip_default, equal_default}
use frugal.Spec.{big_endian}
use frugal.Spec.Typed.{IsWord, IsText, IsReadable, HasReadableDefault, IsTyped, DefaultReads}
use frugal.Correct.Words.{append_uint16-big_endian, append_uint32-big_endian}
use frugal.Correct.Words.{append_uint32-big_endian_mod, append_uint64-big_endian}

one_byte : (b : Buf) (n : ℕ) → b ++ (n % 256 ∷ []) ≡ b ++ big_endian 1 n
unfolding big_endian
one_byte b n = refl

pub append_simple-word :
    (t : DefType) (b : Buf) (n : ℕ)
    → IsWord n t
    → append_simple (ttype_of t) b (num n) ≡ ok (b ++ big_endian (fixed_size t) n)
unfolding ttype_of append_simple fixed_size
append_simple-word t_bool b n h = ap ok (one_byte b n)
append_simple-word t_i8 b n h = ap ok (one_byte b n)
append_simple-word t_double b n h = ap ok (append_uint64-big_endian b n)
append_simple-word t_i16 b n h = ap ok (append_uint16-big_endian b n)
append_simple-word t_i32 b n h = ap ok (append_uint32-big_endian b n)
append_simple-word t_i64 b n h = ap ok (append_uint64-big_endian b n)
append_simple-word t_enum b n h = ap ok (append_uint32-big_endian_mod b n)
append_simple-word _ b n h = absurd h

put_text : (b s : Buf) → append_simple string_t b (str s) ≡ ok (b ++ (big_endian 4 (length s) ++ s))
unfolding append_simple
put_text b s = ap ok (
    ap (λ r. r ++ s) (append_uint32-big_endian_mod b (length s))
    ∙ append_assoc b (big_endian 4 (length s)) s)

pub append_simple-text :
    (t : DefType) (b s : Buf)
    → IsText t
    → append_simple (ttype_of t) b (str s) ≡ ok (b ++ (big_endian 4 (length s) ++ s))
unfolding ttype_of
append_simple-text t_string b s h = put_text b s
append_simple-text t_binary b s h = put_text b s
append_simple-text _ b s h = absurd h

pub append_any-word :
    (t : DefType) (b : Buf) (c : Child) (n : ℕ)
    → c.val ≡ num n
    → IsWord n t
    → append_any t b c ≡ append_simple (ttype_of t) b (num n)
unfolding ttype_of append_any simple_type is_pointer
append_any-word t_bool b c n e h = rw e
append_any-word t_i8 b c n e h = rw e
append_any-word t_double b c n e h = rw e
append_any-word t_i16 b c n e h = rw e
append_any-word t_i32 b c n e h = rw e
append_any-word t_i64 b c n e h = rw e
append_any-word t_enum b c n e h = rw e
append_any-word _ b c n e h = absurd h

pub append_any-text :
    (t : DefType) (b : Buf) (c : Child) (v : Val)
    → c.val ≡ v
    → IsText t
    → append_any t b c ≡ append_simple (ttype_of t) b v
unfolding ttype_of append_any simple_type is_pointer
append_any-text t_string b c v e h = rw e
append_any-text t_binary b c v e h = rw e
append_any-text _ b c v e h = absurd h

-- Two readable values are compared.
equal-readable :
    (t : TType) (d v : Val) → IsReadable t d → IsReadable t v → (r : Bool) × (equal t d v ≡ ok r)
unfolding equal
equal-readable string_t (str a) (str b) p q = (_, refl)
equal-readable string_t (str a) nil p q = (_, refl)
equal-readable string_t nil (str b) p q = (_, refl)
equal-readable string_t nil nil p q = (_, refl)
equal-readable struct_t d v p q = (_, refl)
equal-readable map_t d v p q = (_, refl)
equal-readable set_t d v p q = (_, refl)
equal-readable list_t d v p q = (_, refl)
equal-readable bool_t (num a) (num b) p q = (_, refl)
equal-readable byte_t (num a) (num b) p q = (_, refl)
equal-readable double_t (num a) (num b) p q = (_, refl)
equal-readable i16_t (num a) (num b) p q = (_, refl)
equal-readable i32_t (num a) (num b) p q = (_, refl)
equal-readable i64_t (num a) (num b) p q = (_, refl)
equal-readable enum_t (num a) (num b) p q = (_, refl)
equal-readable _ _ _ p q = ground (arith)

module _ (ds : ℕ → StructDesc) (by_value : Bool) where
  IsTyped-IsReadable :
      (t : DefType) (v : Val)
      → is_pointer t ≡ false
      → IsTyped ds by_value v t
      → IsReadable (ttype_of t) v
  unfolding ttype_of is_pointer
  IsTyped-IsReadable t_bool (num n) e h = tt
  IsTyped-IsReadable t_string (str n) e h = tt
  IsTyped-IsReadable _ _ e h = ground arith

  equal_default-total :
      (t : DefType) (o : Option Val) (v : Val)
      → DefaultReads (ttype_of t) o
      → is_pointer t ≡ false
      → IsTyped ds by_value v t
      → (r : Bool) × (equal_default (ttype_of t) o v ≡ ok r)
  unfolding equal_default
  equal_default-total t none v d e h = (false, refl)
  equal_default-total t (some x) v d e h =
      equal-readable (ttype_of t) x v d (IsTyped-IsReadable t v e h)

  -- Whether a field's value is left out for its default is decided without a fault.
  pub skip_default-total :
      (f : TField) (v : Val)
      → SkipsOptional f
      → HasReadableDefault f
      → IsTyped ds by_value v f.type
      → (r : Bool) × (skip_default f v ≡ ok r)
  unfolding skip_default
  skip_default-total f v s d h = elim (Bool-cases f.can_skip_if_default) [
    | inr e ↦ (false, rw e)
    | inl e ↦
        let (r, p) = equal_default-total f.type f.default_val v d (s.no_pointer e) h in (r, rw e p)
  ]
