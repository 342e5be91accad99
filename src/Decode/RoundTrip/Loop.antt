-- ===== src/Decode/RoundTrip/Loop.antt =====
-- The field loop of Decode in internal/reflect/decoder.go on the fields that Append wrote.
use frugal.Base.{ℕ, zero, suc, ◌+◌, ◌^◌, ◌<◌, ◌≡◌, ap, ◌∙◌, arith, true, false, Bool-cases}
use frugal.Base.{
  List, [], ◌∷◌, ◌++◌, All, some, length, append_assoc, length-append, inl, inr, get_elem?,
}
use frugal.Base.{Outcome, ok}
use frugal.Wire.{Buf}
use frugal.Types.{wire_type}
use frugal.Value.{Val, len_vals}
use frugal.Desc.{TField, StructDesc, get_field}
use frugal.Bitset.{Bitset, test}
use frugal.Bitset.Laws.{IsBitset}
use frugal.Spec.{Form, big_endian, is_omitted, field_form, fields_form}
use frugal.Correct.Words.{length-big_endian}
use frugal.Decode.Runtime.{Runtime, Decoder}
use frugal.Decode.Fields.{State, set_val, has_required, decode_round, decode_fields}
use frugal.Decode.Result.{Place, patch, patch_field}
use frugal.Decode.RoundTrip.Structs.{Keeps, round_read, val_at-set_val}
use frugal.Decode.RoundTrip.FieldLoop.{
  fields_round, FieldReads, IsMarked, left_out, unpatched, on_wire, patched, readable, behind_field,
  shorter,
}

module _ (rt : Runtime) (dec : Decoder) (sd : StructDesc) (forms : List (Val × Form))
    (ps : List Place) (k : ℕ) (tail : Buf) (after : State → State)
    (tail_read : (fuel : ℕ) (st : State)
      → k < fuel
      → decode_fields rt dec sd fuel tail st ≡ ok (after st)) where
  -- The loop goes on with `tail`, the fields on the wire written over the old ones; where `tail` is
  -- read, it takes the state `after`, in at most k rounds.
  pub record Looped (fs : List TField) (st : State) (m : Outcome State) : Type 0 where
    pub bs : Bitset
    pub good : IsBitset bs
    pub keeps : Keeps st.bs bs
    pub marks : All (IsMarked rt dec sd forms ps bs) fs
    pub run :
        m
        ≡ ok (
            after (record st {
              vs = patch fs ps st.vs;
              bs = bs;
              i = st.i + length (fields_form fs forms);
            }))

  written_step :
      (f : TField) (fs : List TField) (n fuel : ℕ) (st : State) (bs : Bitset)
      (rd : FieldReads rt dec sd forms ps n f)
      → is_omitted f rd.v ≡ false
      → f.id < 2 ^ 16
      → Keeps st.bs bs
      → (has_required sd ≡ true → test f.id bs ≡ ok true)
      → decode_round rt dec sd
          (wire_type f.type)
          f.id
          (rd.form f.type ++ (fields_form fs forms ++ tail))
          st
        ≡ ok (
          length (rd.form f.type),
          behind_field rt dec sd forms ps f (rd.form f.type) (rd.r f.type) bs st,
        )
      → Looped fs (behind_field rt dec sd forms ps f (rd.form f.type) (rd.r f.type) bs st) (
          decode_fields rt dec sd fuel
            (fields_form fs forms ++ tail)
            (behind_field rt dec sd forms ps f (rd.form f.type) (rd.r f.type) bs st))
      → Looped
          (f ∷ fs)
          st
          (decode_fields rt dec sd (suc fuel) (fields_form (f ∷ fs) forms ++ tail) st)
  unfolding fields_form patch
  written_step f fs n fuel st bs rd kp lt keeps marks round behind =
      let w = rd.form f.type in
      let rest = fields_form fs forms ++ tail in
      let head = wire_type f.type ∷ (big_endian 2 f.id ++ w) in
      let len1 = length-append head (fields_form fs forms) in
      let len2 = length-append (big_endian 2 f.id) w in
      let len3 = length-big_endian 2 f.id in
      record {
        bs = behind.bs;
        good = behind.good;
        keeps = λ j q. behind.keeps j (keeps j q);
        marks = (inr (λ q. behind.keeps f.id (marks q)), behind.marks);
        run =
            rw
              (
                on_wire rt dec sd forms ps f rd.v rd.form rd.form_at kp,
                patched rt dec sd forms ps f rd.v rd.r st.vs rd.place_at kp,
              )
              (ap (λ z. decode_fields rt dec sd (suc fuel) z st)
                  (append_assoc head (fields_form fs forms) tail)
                ∙ fields_round rt dec sd fuel f w rest st
                    (behind_field rt dec sd forms ps f w (rd.r f.type) bs st) lt round
                ∙ behind.run
                ∙ ap
                    (λ j. ok (
                      after (record st {
                        vs = patch fs ps (set_val st.vs f.offset (rd.r f.type));
                        bs = behind.bs;
                        i = j;
                      })))
                    (omega (arith, len1, len2, len3)));
      }

  pub loop_read :
      (fs : List TField) (fuel : ℕ) (st : State) (n : ℕ)
      → All (λ f. f.id < 2 ^ 16) fs
      → All (λ f. get_field sd f.id ≡ ok (some f)) fs
      → All (FieldReads rt dec sd forms ps n) fs
      → len_vals st.vs ≡ n
      → IsBitset st.bs
      → length (fields_form fs forms) + k < fuel
      → Looped fs st (decode_fields rt dec sd fuel (fields_form fs forms ++ tail) st)
  unfolding fields_form patch
  loop_read fs zero st n ids gets reads len b h = absurd (omega arith)
  loop_read [] (suc fuel) st n ids gets reads len b h = record {
    bs = st.bs;
    good = b;
    keeps = λ j q. q;
    marks = tt;
    run =
        tail_read (suc fuel) _ (omega arith)
        ∙ ap (λ j. ok (after (record st { i = j }))) (omega arith);
  }
  loop_read (f ∷ fs) (suc fuel) st n (lt, ids) (g, gets) (rd, reads) len b h =
      elim (Bool-cases (is_omitted f rd.v)) [
        | inl om ↦
            let skip : field_form f (get_elem? forms f.offset) ≡ [] =
              left_out rt dec sd forms ps f rd.v rd.form rd.form_at om in
            let same : patch_field f (get_elem? ps f.offset) st.vs ≡ st.vs =
              unpatched rt dec sd forms ps f rd.v rd.r st.vs rd.place_at om in
            let rest = loop_read fs (suc fuel) st n ids gets reads len b (rw skip at h) in
            record {
              bs = rest.bs;
              good = rest.good;
              keeps = rest.keeps;
              marks = (inl (rd.v, rd.form, rd.form_at, om), rest.marks);
              run = rw (skip, same) rest.run;
            }
        | inr kp ↦
            let w = rd.form f.type in
            let rest = fields_form fs forms ++ tail in
            let (bs, b', keeps, marks, round) =
              round_read rt dec sd f w rest (rd.r f.type) st g lt (omega (arith, rd.inside, len)) b
                (readable rt dec sd forms ps n f rd kp) in
            let st' = behind_field rt dec sd forms ps f w (rd.r f.type) bs st in
            written_step f fs n fuel st bs rd kp lt keeps marks round (
              loop_read fs fuel st' n ids gets reads
                (val_at-set_val st.vs f.offset (rd.r f.type) ∙ len) b'
                (shorter rt dec sd forms ps f fs n fuel k rd kp h))
      ]
