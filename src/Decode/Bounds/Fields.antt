-- ===== src/Decode/Bounds/Fields.antt =====
-- Decode ends within the buffer if the values of the fields do: the fuel of its loop is enough.
use frugal.Base.{ℕ, zero, suc, ◌+◌, ◌≤◌, ◌<◌, ◌≡◌, refl, arith, ◌&&◌, none, some}
use frugal.Base.{
  length, drop, length-drop, ltb, ◌==◌, if◌then◌else◌, Option-cases, Bool-cases, inl, inr,
}
use frugal.Base.{
  Outcome, ok, Runs, Runs-bind, Runs-if, Runs-weaken, Runs-map_err, map_err, field_err,
  skip_field_err,
}
use frugal.Wire.{Buf, read_byte, read_uint16}
use frugal.Types.{ttype_of, fixed_size}
use frugal.Value.{Vals}
use frugal.Desc.{TField, StructDesc, get_field}
use frugal.Bitset.{set}
use frugal.UnknownFields.{size, copy, reset}
use frugal.Decode.Required.{unset_all, first_unset}
use frugal.Decode.Runtime.{Runtime, Decoder, slice_from}
use frugal.Decode.Fields.{
  State, known_field, decode_known, skip_field, has_required, decode_field, decode_round,
  after_type, decode_fields, finish, decode_body, val_at,
}
use frugal.Decode.Bounds.{
  Fits, IsBounded, Anything, slice_from-Runs, decode_at-IsBounded, read_byte-Runs, read_uint16-Runs,
  decode_fixed_size_types-Runs, decode_string-Runs, get_field-Runs, set-Runs, unset_all-Runs,
  first_unset-Runs, copy-Runs,
}

-- thrift.Binary.Skip ends, and skips bytes of the buffer.
abbrev pub IsSkip : (ℕ → Buf → Outcome ℕ) → Type 0
IsSkip skip = (tp : ℕ) (b : Buf) → Runs (λ n. n ≤ length b) (skip tp b)

module _ (rt : Runtime) (skips : IsSkip rt.skip) (dec : Decoder) (bounded : IsBounded dec)
    (sd : StructDesc) where
  decode_known-IsBounded : (f : TField) → IsBounded (decode_known dec f)
  unfolding decode_known
  decode_known-IsBounded f t b old =
      Runs-if (Fits b) (ltb 0 (fixed_size t)) _ _ (decode_fixed_size_types-Runs (ttype_of t) b)
        (Runs-if (Fits b) f.no_copy _ _ (decode_string-Runs b) (bounded t b old))

  -- A round takes its bytes from the rest of the buffer, and counts them with the header's three.
  abbrev Rounds : Buf → State → ℕ × State → Type 0
  Rounds b st r = (r.0 ≤ length b) × (r.1.i ≡ st.i + 3 + r.0)

  skip_field-Runs :
      (tp fid : ℕ) (b : Buf) (st : State) → Runs (Rounds b st) (skip_field rt sd tp fid b st)
  unfolding skip_field
  skip_field-Runs tp fid b st =
      Runs-bind _ (Rounds b st) (map_err (skip_field_err fid) (rt.skip tp b)) _
        (Runs-map_err _ (skip_field_err fid) (rt.skip tp b) (skips tp b)) λ n q. (q, omega arith)

  decode_field-Runs :
      (f : TField) (fid : ℕ) (b : Buf) (st : State)
      → Runs (Rounds b st) (decode_field rt dec sd f fid b st)
  unfolding decode_field
  decode_field-Runs f fid b st = elim (Option-cases (val_at st.vs f.offset)) [
    | inl e ↦ rw (e, decode_field) tt
    | inr (old, e) ↦
        let placed =
          decode_at-IsBounded rt (decode_known dec f) (decode_known-IsBounded f) f.type b old in
        rw (e, decode_field)
          (Runs-bind (Fits b) (Rounds b st) _ _ (Runs-map_err (Fits b) (field_err fid) _ placed)
            λ (v, n) q.
              Runs-bind Anything (Rounds b st)
                (if has_required sd then set f.id st.bs else ok st.bs) _
                (Runs-if Anything (has_required sd) _ _ (set-Runs f.id st.bs) tt)
                λ bs _. (q, omega arith))
  ]

  decode_round-Runs :
      (tp fid : ℕ) (b : Buf) (st : State) → Runs (Rounds b st) (decode_round rt dec sd tp fid b st)
  unfolding decode_round
  decode_round-Runs tp fid b st =
      Runs-bind Anything (Rounds b st) (get_field sd fid) _ (get_field-Runs sd fid) λ f _.
        elim (Option-cases (known_field f tp)) [
          | inl e ↦ rw e (skip_field-Runs tp fid b st)
          | inr (g, e) ↦ rw e (decode_field-Runs g fid b st)
        ]

  decode_fields-Runs :
      (fuel : ℕ) (b : Buf) (st : State)
      → length b < fuel
      → Runs (λ st'. st'.i ≤ st.i + length b) (decode_fields rt dec sd fuel b st)
  unfolding decode_fields after_type
  decode_fields-Runs zero b st h = absurd (omega arith)
  decode_fields-Runs (suc fuel) b st h = Runs-bind _ _ (read_byte b) _ (read_byte-Runs b) λ tp one.
      elim (Bool-cases (tp == 0)) [
        | inl e ↦ rw (e, after_type) (omega (arith, one))
        | inr e ↦
            rw (e, after_type)
              (Runs-bind _ _ (read_uint16 (drop 1 b)) _ (read_uint16-Runs (drop 1 b)) λ fid two.
                Runs-bind _ _ (decode_round rt dec sd tp fid (drop 2 (drop 1 b)) st) _
                  (decode_round-Runs tp fid (drop 2 (drop 1 b)) st)
                  λ (n, st') (q, i).
                    Runs-bind _ _ (slice_from (drop 2 (drop 1 b)) n) _
                      (slice_from-Runs (drop 2 (drop 1 b)) n)
                      λ b' (le, l).
                        Runs-weaken _ _ (decode_fields rt dec sd fuel b' st')
                          (decode_fields-Runs fuel b' st'
                            (omega (arith, l, length-drop 2 (drop 1 b), length-drop 1 b, two, h)))
                          λ st'' r.
                            omega
                              (arith, r, i, q, l, length-drop 2 (drop 1 b), length-drop 1 b, two))
      ]

  finish-Runs : (b xb : Buf) (st : State) → Runs (λ r. r.1 ≡ st.i) (finish rt sd b xb st)
  unfolding finish
  finish-Runs b xb st =
      Runs-bind Anything _ (first_unset sd.required_field_ids st.bs) _
        (first_unset-Runs sd.required_field_ids st.bs)
        (elim [
          | some fid ↦ λ _.
              Runs-bind Anything _ (get_field sd fid) _ (get_field-Runs sd fid)
                (elim [ none ↦ λ _. tt | some f ↦ λ _. tt ])
          | none ↦ λ _.
              Runs-if _ (sd.has_unknown_fields && ltb 0 (size st.ufs)) _ _
                (Runs-bind Anything _ (copy st.ufs (rt.unknown_mem (size st.ufs)) b) _
                  (copy-Runs st.ufs (rt.unknown_mem (size st.ufs)) b) λ out _. refl)
                refl
        ])

  pub decode_body-Runs :
      (depth : ℕ) (b : Buf) (vs : Vals) (xb : Buf)
      → Runs (Fits b) (decode_body rt dec depth sd b vs xb)
  unfolding decode_body
  decode_body-Runs depth b vs xb =
      Runs-bind Anything (Fits b) (unset_all sd.required_field_ids (rt.bitset depth b)) _
        (unset_all-Runs sd.required_field_ids (rt.bitset depth b))
        λ bs _.
          let st : State = record { vs = vs; bs = bs; ufs = reset (rt.unknowns depth b); i = 0 } in
          Runs-bind (λ st'. st'.i ≤ 0 + length b) (Fits b)
            (decode_fields rt dec sd (suc (length b)) b st) _
            (decode_fields-Runs (suc (length b)) b st (omega arith))
            λ st' q.
              Runs-weaken (λ r. r.1 ≡ st'.i) (Fits b) (finish rt sd b xb st') (finish-Runs b xb st')
                λ r e. omega (arith, q, e)
