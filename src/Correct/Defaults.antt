-- ===== src/Correct/Defaults.antt =====
-- Equal of internal/reflect/ttype.go against the equality of values, which leaves out a field that is
-- equal to its default.
use frugal.Base.{ℕ, ◌≡◌, refl, Bool, false, ◌&&◌, ◌==◌, Option, none, some, inl, inr, Bool-cases}
use frugal.Base.{ok, Ensures, Ensures-ok}
use frugal.Types.{
  TType, bool_t, byte_t, double_t, i16_t, i32_t, i64_t, string_t, struct_t, map_t, set_t, list_t,
  enum_t, ttype_of, simple_types,
}
use frugal.Value.{Val, num, str, nil}
use frugal.Child.{equal, equal_num, f64_eq}
use frugal.Desc.{TField}
use frugal.Encode.{skip_default, equal_default}
use frugal.Spec.{same_value, is_default}

num-same_value :
    (k : TType) (eq : ℕ → ℕ → Bool) (v w : Val)
    → ((a b : ℕ) → same_value k (num a) (num b) ≡ eq a b)
    → Ensures (λ b. same_value k v w ≡ b) (equal_num eq v w)
unfolding equal_num
num-same_value k eq (num a) (num b) h = h a b
num-same_value k eq (num a) _ h = tt
num-same_value k eq _ _ h = tt

-- Equal decides the equality of values that both have the type.
equal-same_value : (k : TType) (v w : Val) → Ensures (λ b. same_value k v w ≡ b) (equal k v w)
unfolding equal same_value simple_types
equal-same_value bool_t v w = num-same_value bool_t ◌==◌ v w λ a b. refl
equal-same_value byte_t v w = num-same_value byte_t ◌==◌ v w λ a b. refl
equal-same_value double_t v w = num-same_value double_t f64_eq v w λ a b. refl
equal-same_value i16_t v w = num-same_value i16_t ◌==◌ v w λ a b. refl
equal-same_value i32_t v w = num-same_value i32_t ◌==◌ v w λ a b. refl
equal-same_value i64_t v w = num-same_value i64_t ◌==◌ v w λ a b. refl
equal-same_value enum_t v w = num-same_value enum_t ◌==◌ v w λ a b. refl
equal-same_value string_t (str a) (str b) = refl
equal-same_value string_t (str a) nil = refl
equal-same_value string_t (str a) _ = tt
equal-same_value string_t nil (str b) = refl
equal-same_value string_t nil nil = refl
equal-same_value string_t nil _ = tt
equal-same_value string_t _ _ = tt
equal-same_value struct_t (num a) (num b) = refl
equal-same_value struct_t (num a) _ = refl
equal-same_value struct_t _ _ = refl
equal-same_value map_t (num a) (num b) = refl
equal-same_value map_t (num a) _ = refl
equal-same_value map_t _ _ = refl
equal-same_value set_t (num a) (num b) = refl
equal-same_value set_t (num a) _ = refl
equal-same_value set_t _ _ = refl
equal-same_value list_t (num a) (num b) = refl
equal-same_value list_t (num a) _ = refl
equal-same_value list_t _ _ = refl

pub skip_default-is_default :
    (f : TField) (v : Val) (r : Bool)
    → skip_default f v ≡ ok r
    → (f.can_skip_if_default && is_default f v) ≡ r
unfolding skip_default equal_default is_default
skip_default-is_default f v r e = elim (Bool-cases f.can_skip_if_default) [
  | inl c ↦ rw c (by_default f.default_val (rw c at e))
  | inr c ↦ rw c (Ensures-ok (λ x. false ≡ x) (rw c at e) refl)
]
  where
    by_default :
        (o : Option Val)
        → equal_default (ttype_of f.type) o v ≡ ok r
        → (elim o [ none ↦ false | some d ↦ same_value (ttype_of f.type) d v ]) ≡ r
    by_default none q = Ensures-ok (λ x. false ≡ x) q refl
    by_default (some d) q =
        Ensures-ok (λ x. same_value (ttype_of f.type) d v ≡ x) q
          (equal-same_value (ttype_of f.type) d v)
