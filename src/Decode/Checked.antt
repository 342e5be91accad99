-- ===== src/Decode/Checked.antt =====
-- The check of required fields of tDecoder.Decode (internal/reflect/decoder.go, lines 70 to 135),
-- against the fields that the loop went over.
use frugal.Base.{
  ℕ, suc, ◌^◌, ◌<◌, ◌≡◌, inl, inr, refl, ap, ◌∙◌, Bool, true, false, ◌||◌, ◌&&◌, ◌==◌,
  if◌then◌else◌, List, [], ◌∷◌,
}
use frugal.Base.{Option, none, some, ok, Bool-cases, ==_self}
use frugal.Base.{Option-cases}
use frugal.Base.{length, ltb}
use frugal.Wire.{Buf}
use frugal.Value.{Vals}
use frugal.Bitset.{Bitset, test}
use frugal.Bitset.Laws.{IsBitset}
use frugal.Desc.{TField, StructDesc, get_field}
use frugal.Desc.Table.{IsTable}
use frugal.UnknownFields.{size, copy, reset}
use frugal.Decode.Required.{first_unset, elem, IsIds, unset_all-Marks}
use frugal.Decode.Runtime.{Runtime, Decoder}
use frugal.Decode.Fields.{State, has_required, decode_fields, finish, decode_body}
use frugal.Decode.Tells.{
  Tells, Always, Tells-bind, Tells-if, copy-Tells, get_field-small, get_field-Tells,
}
use frugal.Decode.Trace.{Trace, Loop, decode_fields-Tells}

-- The first required ID that no decoded field has.
unfoldable pub first_missing : List ℕ → List ℕ → Option ℕ
first_missing [] decoded = none
first_missing (f ∷ fs) decoded =
    let rest = first_missing fs decoded in if elem f decoded then rest else some f

first_unset-first_missing :
    (ids decoded : List ℕ) (s : Bitset)
    → ((j : ℕ) → elem j ids ≡ true → test j s ≡ ok (elem j decoded))
    → first_unset ids s ≡ ok (first_missing ids decoded)
unfolding first_unset first_missing
first_unset-first_missing [] decoded s h = refl
first_unset-first_missing (f ∷ fs) decoded s h =
    let rest : first_unset fs s ≡ ok (first_missing fs decoded) =
      first_unset-first_missing fs decoded s λ j e. h j (or_true (f == j) e) in
    rw (h f (ap (λ t. t || elem f fs) (==_self f)), rest)
      (elim (Bool-cases (elem f decoded)) [ inl e ↦ rw e | inr e ↦ rw e ])
  where
    or_true : (t : Bool) {u : Bool} → u ≡ true → t || u ≡ true
    or_true true e = refl
    or_true false e = e

module _ (rt : Runtime) (dec : Decoder) (sd : StructDesc) where
  -- What the check says of a buffer: the fields before the stop byte have all required IDs, or
  -- `fid` is the first required ID that none of them has.
  abbrev pub HasAll : Buf → Type 0
  HasAll b =
      (ids : List ℕ) × Trace rt dec sd b ids × (first_missing sd.required_field_ids ids ≡ none)

  abbrev pub Misses : Buf → ℕ → Type 0
  Misses b fid =
      (ids : List ℕ) × Trace rt dec sd b ids × (first_missing sd.required_field_ids ids ≡ some fid)

  finish-Tells :
      (b xb : Buf) (st : State) (ids : List ℕ)
      → Trace rt dec sd b ids
      → first_unset sd.required_field_ids st.bs ≡ ok (first_missing sd.required_field_ids ids)
      → Tells (λ r. HasAll b) (Misses b) (finish rt sd b xb st)
  unfolding finish
  finish-Tells b xb st ids walk e =
      rw e (elim (Option-cases (first_missing sd.required_field_ids ids)) [
        | inl q ↦ rw q (
            Tells-if _ _ (sd.has_unknown_fields && ltb 0 (size st.ufs)) _ _
              (Tells-bind Always _ _ (copy st.ufs (rt.unknown_mem (size st.ufs)) b) _
                (copy-Tells st.ufs (rt.unknown_mem (size st.ufs)) b) λ out _ _. (ids, walk, q))
              (ids, walk, q))
        | inr (fid, q) ↦ rw q (
            Tells-bind Always _ _ (get_field sd fid) _ (get_field-Tells sd fid)
              (elim [ none ↦ λ _ _. tt | some f ↦ λ _ _. (ids, walk, q) ]))
      ])

  module _ (table : IsTable sd) (ids : IsIds sd.required_field_ids) where
    -- Decode on a struct with required fields and a table that finds all fields (IsTable), whatever
    -- the bitset, of 1024 words, held when it was taken from the pool, for required IDs of 16 bits,
    -- and whatever the decoder below does: if it succeeds, the fields that it went over up to the
    -- stop byte have all required IDs, and if it returns that the field `fid` is not set, then
    -- `fid` is the first required ID that none of them has. A field counts if the descriptor knows
    -- its ID at its wire type and its value was decoded; each is found behind the bytes of the one
    -- before.
    pub decode_body-Tells :
        (depth : ℕ) (b xb : Buf) (vs : Vals)
        → has_required sd ≡ true
        → IsBitset (rt.bitset depth b)
        → Tells (λ r. HasAll b) (Misses b) (decode_body rt dec depth sd b vs xb)
    unfolding decode_body
    decode_body-Tells depth b xb vs req good =
        let (bs, e, good', t) =
          unset_all-Marks sd.required_field_ids (rt.bitset depth b) ids good in
        let start : State = record { vs = vs; bs = bs; ufs = reset (rt.unknowns depth b); i = 0 } in
        let small : (fid : ℕ) (f : TField) → get_field sd fid ≡ ok (some f) → f.id < 2 ^ 16 =
          λ fid f. get_field-small sd fid f table.ids in
        rw e (
          Tells-bind (Loop rt dec sd req small b start) (λ r. HasAll b) (Misses b)
            (decode_fields rt dec sd (suc (length b)) b start) _
            (decode_fields-Tells rt dec sd req small (suc (length b)) b start good')
            λ st _ (seen, walk, (_, t')). finish-Tells b xb st seen walk (
              first_unset-first_missing sd.required_field_ids seen st.bs λ j q.
                t' j
                ∙ ap (λ r. if elem j seen then ok true else r) (t j ∙ rw q)
                ∙ both (elem j seen)))
      where
        both : (t : Bool) → (if t then ok true else ok false) ≡ ok t
        both true = refl
        both false = refl
