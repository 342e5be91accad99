-- ===== src/Correct/FastPaths.antt =====
-- The type-specialised functions of append_list_fast.go and append_map_fast.go do what the general
-- appendListAny and appendMapAnyAny do.
use frugal.Base.{ℕ, ◌%◌, ◌<◌, ◌≡◌, ◌≢◌, refl, sym, ap, ◌∙◌, arith, true}
use frugal.Base.{List, [], ◌∷◌, ◌++◌, Outcome, ok, ◌>>=◌, ◌==◌, if◌then◌else◌}
use frugal.Wire.{Buf}
use mathlib.Core.Path.{fun_ext}
use frugal.Types.{DefType, TType, t_bool, t_i8, t_double, t_i16, t_i32, t_i64, t_string, t_enum}
use frugal.Types.{t_binary, t_struct, t_map, t_set, t_list, t_pointer, is_key_type, is_value_type}
use frugal.Types.{ttype_of, simple_type, is_pointer}
use frugal.Value.{Val, num}
use frugal.Child.{Child, as_num}
use frugal.Encode.{append_any, list_append_func, append_list_any, Slice}
use frugal.Encode.{put_byte}
use frugal.Encode.MapLoop.{Put, GoMap, map_loop, append_map, append_map_any_any, decrement}
use frugal.Encode.MapLoop.{map_len, map_entries, append_map_header}
use frugal.Encode.MapFast.{Kind, kind, put_value, map_kind_func, map_append_func, append_map_bool}
use frugal.Encode.MapFast.{bool_k, i08_k, i64_k, other_k, ranged_key, ranged_value}
use frugal.Spec.Typed.{is_walked, is_read_whole}

-- For every element type that the resolver admits, the function that updateListAppendFunc chooses
-- appends what appendListAny appends, on every slice.
pub list_append_func-eq-append_list_any :
    (e : DefType) (b : Buf) (h : Slice)
    → is_value_type e ≡ true
    → list_append_func (ttype_of e) e b h ≡ append_list_any e b h
unfolding ttype_of list_append_func append_list_any append_any is_value_type simple_type is_pointer
list_append_func-eq-append_list_any t_bool b h v = refl
list_append_func-eq-append_list_any (t_pointer t_bool) b h v = cc
list_append_func-eq-append_list_any (t_pointer t_i8) b h v = cc
list_append_func-eq-append_list_any (t_pointer t_double) b h v = cc
list_append_func-eq-append_list_any (t_pointer t_i16) b h v = cc
list_append_func-eq-append_list_any (t_pointer t_i32) b h v = cc
list_append_func-eq-append_list_any (t_pointer t_i64) b h v = cc
list_append_func-eq-append_list_any (t_pointer t_string) b h v = cc
list_append_func-eq-append_list_any (t_pointer t_enum) b h v = cc
list_append_func-eq-append_list_any (t_pointer t_binary) b h v = cc
list_append_func-eq-append_list_any (t_pointer (t_struct s)) b h v = refl
list_append_func-eq-append_list_any (t_pointer _) b h v = cc
list_append_func-eq-append_list_any _ b h v = refl

-- The two functions of a pair of kinds, one for the keys and one for the values.
abbrev key_put : Kind → Kind → DefType → Put
key_put bool_k other_k t = λ b c. put_byte b c.val
key_put i64_k v t = ranged_key t v
key_put k v t = put_value t k

abbrev val_put : Kind → Kind → DefType → Put
val_put other_k bool_k t = λ b c. put_byte b c.val
val_put bool_k other_k t = put_value t other_k
val_put other_k v t = put_value t v
val_put k v t = ranged_value t v

map_kind_func-append_map :
    (k v : Kind) (kt vt : DefType) (b : Buf) (m : GoMap)
    → map_kind_func k v kt vt b m ≡ append_map (key_put k v kt) (val_put k v vt) kt vt b m
unfolding map_kind_func put_value
map_kind_func-append_map bool_k other_k kt vt b m = refl
map_kind_func-append_map other_k bool_k kt vt b m = refl
map_kind_func-append_map bool_k _ kt vt b m = refl
map_kind_func-append_map i08_k _ kt vt b m = refl
map_kind_func-append_map _ _ kt vt b m = refl

map_append_func-kinds :
    (k v : TType) (kt vt : DefType) (b : Buf) (m : GoMap)
    → map_append_func k v kt vt b m ≡ map_kind_func (kind k) (kind v) kt vt b m
unfolding map_append_func
map_append_func-kinds k v kt vt b m = refl

-- A bool in memory is the byte 0 or 1.
abbrev pub IsBool : DefType → Val → Type 0
IsBool t_bool (num n) = n < 2
IsBool t_bool _ = ⊥
IsBool _ v = Unit

pub is_value_type-of_key : (t : DefType) → is_key_type t ≡ true → is_value_type t ≡ true
unfolding is_key_type is_value_type
is_value_type-of_key (t_pointer u) h = h
is_value_type-of_key _ h = refl

bool_byte :
    (b : Buf) (n : ℕ)
    → n < 2
    → (if n == 0 then b ++ (0 ∷ []) else b ++ (1 ∷ [])) ≡ b ++ (n % 256 ∷ [])
bool_byte b n h = ground arith

put_bool :
    (b : Buf) (v : Val)
    → IsBool t_bool v
    → (as_num v >>= λ n. ok (if n == 0 then b ++ (0 ∷ []) else b ++ (1 ∷ []))) ≡ put_byte b v
unfolding put_byte
put_bool b (num n) h = ap ok (bool_byte b n h)
put_bool b _ h = absurd h

bind_eq {ℓ κ} :
    {A : Type ℓ} {B : Type κ} (m : Outcome A) {f g : A → Outcome B}
    → ((a : A) → f a ≡ g a)
    → (m >>= f) ≡ (m >>= g)
bind_eq m h = ap (λ k. m >>= k) (fun_ext h)

put_value-eq-append_any :
    (t : DefType) (b : Buf) (c : Child)
    → is_value_type t ≡ true
    → IsBool t c.val
    → put_value t (kind (ttype_of t)) b c ≡ append_any t b c
unfolding ttype_of append_any is_value_type simple_type is_pointer put_value kind append_map_bool
put_value-eq-append_any t_bool b c h p = put_bool b c.val p
put_value-eq-append_any (t_pointer (t_struct s)) b c h p = refl
put_value-eq-append_any (t_pointer u) b c h p = cc
put_value-eq-append_any _ b c h p = refl

-- Only a bool has the kind of the bools, so a byte serves for it as well.
bool_kind :
    (t : DefType) (b : Buf) (c : Child)
    → is_value_type t ≡ true
    → IsBool t c.val
    → kind (ttype_of t) ≡ bool_k
    → put_byte b c.val ≡ put_value t (kind (ttype_of t)) b c
unfolding ttype_of is_value_type put_value kind append_map_bool
bool_kind t_bool b c h p e = sym (put_bool b c.val p)
bool_kind (t_pointer (t_struct s)) b c h p e = cc
bool_kind (t_pointer u) b c h p e = cc
bool_kind _ b c h p e = cc

key_put-put_value :
    (k v : Kind) (t : DefType) (b : Buf) (c : Child)
    → (k ≡ bool_k → put_byte b c.val ≡ put_value t k b c)
    → (k ≡ i64_k → ranged_key t v b c ≡ put_value t k b c)
    → key_put k v t b c ≡ put_value t k b c
key_put-put_value bool_k other_k t b c h q = h refl
key_put-put_value bool_k _ t b c h q = refl
key_put-put_value i64_k v t b c h q = q refl
key_put-put_value _ _ t b c h q = refl

val_put-put_value :
    (k v : Kind) (t : DefType) (b : Buf) (c : Child)
    → (v ≡ bool_k → put_byte b c.val ≡ put_value t v b c)
    → (k ≢ other_k → ranged_value t v b c ≡ put_value t v b c)
    → val_put k v t b c ≡ put_value t v b c
val_put-put_value other_k bool_k t b c h q = h refl
val_put-put_value other_k _ t b c h q = refl
val_put-put_value bool_k other_k t b c h q = refl
val_put-put_value bool_k _ t b c h q = q (λ e. cc)
val_put-put_value _ _ t b c h q = q (λ e. cc)

-- A type that is walked into has the kind of the other functions.
is_walked-kind :
    (t : DefType) → is_value_type t ≡ true → is_walked t ≡ true → kind (ttype_of t) ≡ other_k
unfolding ttype_of is_value_type is_walked kind
is_walked-kind (t_struct s) h w = refl
is_walked-kind (t_map k v) h w = refl
is_walked-kind (t_set v) h w = refl
is_walked-kind (t_list v) h w = refl
is_walked-kind (t_pointer (t_struct s)) h w = refl
is_walked-kind (t_pointer u) h w = cc
is_walked-kind _ h w = cc

ranged_key-put_value :
    (kt vt : DefType) (b : Buf) (c : Child)
    → is_value_type vt ≡ true
    → is_read_whole kt vt ≡ true
    → ranged_key kt (kind (ttype_of vt)) b c ≡ put_value kt i64_k b c
unfolding ranged_key put_value is_read_whole
ranged_key-put_value t_double vt b c hv r = rw (is_walked-kind vt hv r) refl
ranged_key-put_value _ vt b c hv r = refl

-- A []byte is read at its own type only beside keys that are pointers.
binary_keys :
    (kt : DefType)
    → is_key_type kt ≡ true
    → is_read_whole kt t_binary ≡ true
    → kind (ttype_of kt) ≡ other_k
unfolding is_read_whole is_walked is_key_type kind ttype_of
binary_keys (t_pointer (t_struct s)) hk r = refl
binary_keys (t_pointer _) hk r = cc
binary_keys _ hk r = cc

ranged_value-put_value :
    (kt vt : DefType) (b : Buf) (c : Child)
    → is_key_type kt ≡ true
    → is_read_whole kt vt ≡ true
    → kind (ttype_of kt) ≢ other_k
    → ranged_value vt (kind (ttype_of vt)) b c ≡ put_value vt (kind (ttype_of vt)) b c
unfolding ranged_value
ranged_value-put_value kt t_binary b c hk r n = absurd (n (binary_keys kt hk r))
ranged_value-put_value kt _ b c hk r n = refl

-- No function reads an empty or nil map's entries, so it need not be read at its own Go type.
pub map_append_func-empty :
    (kt vt : DefType) (b : Buf) (m : GoMap)
    → map_len m ≡ 0
    → map_append_func (ttype_of kt) (ttype_of vt) kt vt b m ≡ ok (append_map_header kt vt b m)
map_append_func-empty kt vt b m h =
    map_append_func-kinds (ttype_of kt) (ttype_of vt) kt vt b m
    ∙ map_kind_func-append_map _ _ kt vt b m
    ∙ unfold append_map in rw h refl

-- The bools among the keys and values of a map are 0 or 1.
abbrev pub HasBools : DefType → DefType → List (Child × Child) → Type 0
HasBools kt vt [] = Unit
HasBools kt vt ((k, v) ∷ es) = IsBool kt k.val × IsBool vt v.val × HasBools kt vt es

module _ (kt vt : DefType) (hk : is_key_type kt ≡ true) (hv : is_value_type vt ≡ true)
    (hr : is_read_whole kt vt ≡ true) where
  key_step :
      (b : Buf) (c : Child)
      → IsBool kt c.val
      → key_put (kind (ttype_of kt)) (kind (ttype_of vt)) kt b c ≡ append_any kt b c
  key_step b c p =
      let h = is_value_type-of_key kt hk in
      key_put-put_value _ _ kt b c (bool_kind kt b c h p)
        (λ e. ranged_key-put_value kt vt b c hv hr ∙ ap (λ k. put_value kt k b c) (sym e))
      ∙ put_value-eq-append_any kt b c h p

  val_step :
      (b : Buf) (c : Child)
      → IsBool vt c.val
      → val_put (kind (ttype_of kt)) (kind (ttype_of vt)) vt b c ≡ append_any vt b c
  val_step b c p =
      val_put-put_value _ _ vt b c (bool_kind vt b c hv p)
        (λ n. ranged_value-put_value kt vt b c hk hr n)
      ∙ put_value-eq-append_any vt b c hv p

  loop_step :
      (es : List (Child × Child)) (n : ℕ) (b : Buf)
      → HasBools kt vt es
      → map_loop
          (key_put (kind (ttype_of kt)) (kind (ttype_of vt)) kt)
          (val_put (kind (ttype_of kt)) (kind (ttype_of vt)) vt)
          n
          es
          b
        ≡ map_loop (append_any kt) (append_any vt) n es b
  unfolding map_loop
  loop_step [] n b h = refl
  loop_step ((k, v) ∷ es) n b (pk, pv, h) = rw (key_step b k pk) (
      bind_eq (append_any kt b k) λ b₁.
        rw (val_step b₁ v pv) (bind_eq (append_any vt b₁ v) λ b₂. loop_step es (decrement n) b₂ h))

  -- For every key and value type that the resolver admits, the function that updateMapAppendFunc
  -- chooses appends what appendMapAnyAny appends, errors included, if each bool is 0 or 1 and the
  -- map is not ranged over at another Go map type: its values are no []byte, unless its keys are
  -- pointers, and its keys are no doubles, unless its values are structs, maps, sets or lists.
  pub map_append_func-eq-append_map_any_any :
      (b : Buf) (m : GoMap)
      → HasBools kt vt (map_entries m)
      → map_append_func (ttype_of kt) (ttype_of vt) kt vt b m ≡ append_map_any_any kt vt b m
  map_append_func-eq-append_map_any_any b m h =
      map_append_func-kinds (ttype_of kt) (ttype_of vt) kt vt b m
      ∙ map_kind_func-append_map _ _ kt vt b m
      ∙ same_loop m h
    where
      same_loop :
          (m : GoMap)
          → HasBools kt vt (map_entries m)
          → append_map
              (key_put (kind (ttype_of kt)) (kind (ttype_of vt)) kt)
              (val_put (kind (ttype_of kt)) (kind (ttype_of vt)) vt)
              kt
              vt
              b
              m
            ≡ append_map_any_any kt vt b m
      same_loop m h =
          unfold append_map append_map_any_any in
          ap (λ out. if map_len m == 0 then ok (append_map_header kt vt b m) else out)
            (loop_step (map_entries m) (map_len m) (append_map_header kt vt b m) h)
