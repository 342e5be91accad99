-- ===== src/Decode/RoundTrip/Structs.antt =====
-- The loop over the fields, on the wire form of a struct.
use frugal.Base.{
  ℕ, zero, suc, ◌+◌, ◌^◌, ◌<◌, ◌≡◌, refl, ap, ◌∙◌, arith, Bool, true, false, ◌==◌, ==_self,
}
use frugal.Base.{◌++◌, none, some, length, if◌then◌else◌}
use frugal.Base.{Outcome, ok, ◌>>=◌}
use frugal.Wire.{Buf}
use frugal.Types.{
  bool_t, byte_t, double_t, i16_t, i32_t, i64_t, string_t, struct_t, map_t, set_t, list_t, enum_t,
}
use frugal.Types.{TType, DefType, wire_type, tag, ttype_code}
use frugal.Value.{Val, Vals, end, item, len_vals}
use frugal.Desc.{TField, StructDesc, get_field}
use frugal.Bitset.{Bitset, set, test}
use frugal.Bitset.Laws.{IsBitset, set-test}
use frugal.Spec.{Form}
use frugal.Decode.Runtime.{Runtime, Decoder, decode_at}
use frugal.Decode.Fields.{
  State, val_at, set_val, known_field, skip_field, decode_known, has_required, decode_field,
  decode_round,
}

pub val_at-set_val : (vs : Vals) (i : ℕ) (w : Val) → len_vals (set_val vs i w) ≡ len_vals vs
unfolding set_val
val_at-set_val end i w = refl
val_at-set_val (item v vs) zero w = refl
val_at-set_val (item v vs) (suc i) w = ap suc (val_at-set_val vs i w)

pub val_at-some : (vs : Vals) (i : ℕ) → i < len_vals vs → (w : Val) × (val_at vs i ≡ some w)
unfolding val_at
val_at-some end i h = absurd (omega arith)
val_at-some (item v vs) zero h = (v, refl)
val_at-some (item v vs) (suc i) h = val_at-some vs i (omega arith)

code_positive : (k : TType) → (ttype_code k == 0) ≡ false
unfolding ttype_code
code_positive bool_t = refl
code_positive byte_t = refl
code_positive double_t = refl
code_positive i16_t = refl
code_positive i32_t = refl
code_positive i64_t = refl
code_positive string_t = refl
code_positive struct_t = refl
code_positive map_t = refl
code_positive set_t = refl
code_positive list_t = refl
code_positive enum_t = refl

pub wire_type-positive : (t : DefType) → (wire_type t == 0) ≡ false
unfolding wire_type
wire_type-positive t = code_positive (tag t)

-- From one bitset to the next nothing is lost.
abbrev pub Keeps : Bitset → Bitset → Type 0
Keeps s s' = (j : ℕ) → test j s ≡ ok true → test j s' ≡ ok true

kept :
    (c : Bool) (m : Outcome Bool) {n : Outcome Bool}
    → n ≡ (if c then ok true else m)
    → m ≡ ok true
    → n ≡ ok true
kept true m p q = p
kept false m p q = p ∙ q

mark :
    (required : Bool) (fid : ℕ) (s : Bitset)
    → IsBitset s
    → fid < 2 ^ 16
    → (s' : Bitset) × IsBitset s'
      × Keeps s s'
      × (required ≡ true → test fid s' ≡ ok true)
      × ((if required then set fid s else ok s) ≡ ok s')
mark false fid s b h = (s, b, λ j q. q, λ q. cc, refl)
mark true fid s b h =
    let (s', e, b', t) = set-test s fid b h in
    (s', b', λ j q. kept (fid == j) (test j s) (t j) q, λ q. rw (==_self fid) at (t fid), e)

known_self : (f : TField) → known_field (some f) (wire_type f.type) ≡ some f
unfolding known_field
known_self f = rw (==_self (wire_type f.type))

module _ (rt : Runtime) (dec : Decoder) (sd : StructDesc) where
  -- How a field that was written is read back, whatever the variable held.
  abbrev pub Readable : TField → Form → (DefType → Val) → Type 0
  Readable f form r =
      (rest : Buf) (old : Val)
      → decode_at rt (decode_known dec f) f.type (form f.type ++ rest) old
        ≡ ok (r f.type, length (form f.type))

  round_known :
      (f : TField) (b : Buf) (st : State)
      → get_field sd f.id ≡ ok (some f)
      → decode_round rt dec sd (wire_type f.type) f.id b st ≡ decode_field rt dec sd f f.id b st
  unfolding decode_round
  round_known f b st g =
      ap
        (λ m. m >>= λ k. elim (known_field k (wire_type f.type)) [
          | none ↦ skip_field rt sd (wire_type f.type) f.id b st
          | some f' ↦ decode_field rt dec sd f' f.id b st
        ])
        g
      ∙ ap
          (λ k. elim k [
            | none ↦ skip_field rt sd (wire_type f.type) f.id b st
            | some f' ↦ decode_field rt dec sd f' f.id b st
          ])
          (known_self f)

  -- One round on a field that was written.
  pub round_read :
      (f : TField) (w rest : Buf) (x : Val) (st : State)
      → get_field sd f.id ≡ ok (some f)
      → f.id < 2 ^ 16
      → f.offset < len_vals st.vs
      → IsBitset st.bs
      → ((rest : Buf) (old : Val)
          → decode_at rt (decode_known dec f) f.type (w ++ rest) old ≡ ok (x, length w))
      → (bs : Bitset) × IsBitset bs
        × ((j : ℕ) → test j st.bs ≡ ok true → test j bs ≡ ok true)
        × (has_required sd ≡ true → test f.id bs ≡ ok true)
        × (decode_round rt dec sd (wire_type f.type) f.id (w ++ rest) st
            ≡ ok (
              length w,
              record st { vs = set_val st.vs f.offset x; bs = bs; i = st.i + 1 + 2 + length w },
            ))
  unfolding decode_field
  round_read f w rest x st g lt off b h =
      let (bs, b', keeps, marks, e) = mark (has_required sd) f.id st.bs b lt in
      let (old, o) = val_at-some st.vs f.offset off in
      (bs, b', keeps, marks, round_known f (w ++ rest) st g ∙ rw (decode_field, o, h rest old, e))
