-- ===== src/Decode/Trace.antt =====
-- The loop over the fields of tDecoder.Decode (internal/reflect/decoder.go, lines 86 to 130): the
-- fields that it goes over, and the bits of the required ones.
use frugal.Base.{
  ℕ, zero, suc, ◌^◌, ◌<◌, ◌≡◌, ◌⊎◌, inl, inr, refl, sym, ap, ◌∙◌, Bool, true, false, ◌||◌, ◌==◌,
  if◌then◌else◌, List, [], ◌∷◌,
}
use frugal.Base.{Option, none, some, ok, Bool-cases}
use frugal.Base.{Option-cases, drop}
use frugal.Base.{arith}
use frugal.Wire.{Buf, read_byte, read_uint16}
use frugal.Types.{wire_type}
use frugal.Value.{Val}
use frugal.Bitset.{Bitset, test}
use frugal.Bitset.Laws.{IsBitset, set-test}
use frugal.Desc.{TField, StructDesc, get_field}
use frugal.Decode.Required.{elem, either}
use frugal.Decode.Runtime.{Runtime, Decoder, slice_from, decode_at}
use frugal.Decode.Fields.{
  State, known_field, decode_known, skip_field, has_required, decode_field, decode_round,
  after_type, decode_fields, val_at,
}
use frugal.Decode.Tells.{
  Tells, Never, Always, Tells-bind, Tells-field_err, Tells-skip_field_err, map_err-ok, Tells-weaken,
  read_byte-Tells, read_uint16-Tells, slice_from-Tells, get_field-Tells,
}

is_zero : (n : ℕ) → (n == 0) ≡ true → n ≡ 0
is_zero n h = ground arith

or_false : (t : Bool) → t || false ≡ t
or_false true = refl
or_false false = refl

module _ (rt : Runtime) (dec : Decoder) (sd : StructDesc) where
  -- What lies behind a field's header and n bytes.
  abbrev pub behind : ℕ → Buf → Buf
  behind n b = drop n (drop 2 (drop 1 b))

  -- At `b` there is a field of a type and an ID.
  pub record IsHeader (b : Buf) (tp fid : ℕ) : Type 0 where
    pub type : read_byte b ≡ ok tp
    pub goes_on : (tp == 0) ≡ false
    pub id : read_uint16 (drop 1 b) ≡ ok fid

  -- A field of the descriptor whose value takes n bytes, and one that it has not, or at another type.
  pub record IsKnown (b : Buf) (tp fid n : ℕ) (f : TField) : Type 0 where
    pub found : get_field sd fid ≡ ok (some f)
    pub wire : (wire_type f.type == tp) ≡ true
    pub value :
        (old : Val) × (v : Val) × (decode_at rt (decode_known dec f) f.type (behind 0 b) old
          ≡ ok (v, n))

  pub record IsUnknown (b : Buf) (tp fid n : ℕ) : Type 0 where
    pub found : (g : Option TField) × (get_field sd fid ≡ ok g) × (known_field g tp ≡ none)
    pub skipped : rt.skip tp (behind 0 b) ≡ ok n

  -- The fields from `b` to the stop byte, with the IDs of those that the descriptor knows.
  pub data Trace : Buf → List ℕ → Type 0 where
    stop : (b : Buf) → read_byte b ≡ ok 0 → Trace b []
    known :
        {ids : List ℕ} (b : Buf) (tp fid n : ℕ) (f : TField)
        → IsHeader b tp fid
        → IsKnown b tp fid n f
        → Trace (behind n b) ids
        → Trace b (f.id ∷ ids)
    unknown :
        {ids : List ℕ} (b : Buf) (tp fid n : ℕ)
        → IsHeader b tp fid
        → IsUnknown b tp fid n
        → Trace (behind n b) ids
        → Trace b ids

  -- A bitset in which `test` is true at the IDs of a list and else what it was.
  abbrev pub Sets : List ℕ → Bitset → Bitset → Type 0
  Sets ids s s' = IsBitset s' × ((j : ℕ) → test j s' ≡ (if elem j ids then ok true else test j s))

  abbrev Round : Buf → ℕ → ℕ → State → ℕ × State → Type 0
  Round b tp fid st r =
      ((f : TField) × IsKnown b tp fid r.0 f × Sets (f.id ∷ []) st.bs r.1.bs)
      ⊎ (IsUnknown b tp fid r.0 × Sets [] st.bs r.1.bs)

  known_field-some :
      (g : Option TField) (tp : ℕ) {f : TField}
      → known_field g tp ≡ some f
      → (g ≡ some f) × ((wire_type f.type == tp) ≡ true)
  unfolding known_field
  known_field-some none tp h = cc
  known_field-some (some f) tp h = ground arith

  module _ (req : has_required sd ≡ true)
      (small : (fid : ℕ) (f : TField) → get_field sd fid ≡ ok (some f) → f.id < 2 ^ 16) where
    decode_field-Tells :
        (b : Buf) (tp fid : ℕ) (f : TField) (st : State)
        → IsBitset st.bs
        → get_field sd fid ≡ ok (some f)
        → (wire_type f.type == tp) ≡ true
        → Tells (Round b tp fid st) Never (decode_field rt dec sd f fid (behind 0 b) st)
    unfolding decode_field
    decode_field-Tells b tp fid f st good e w = elim (Option-cases (val_at st.vs f.offset)) [
      | inl q ↦ rw (q, decode_field) tt
      | inr (old, q) ↦
          rw (q, decode_field)
            (Tells-bind Always (Round b tp fid st) Never _ _
              (Tells-field_err fid (decode_at rt (decode_known dec f) f.type (behind 0 b) old))
              λ (v, n) r _.
                let (s', e', g', t') = set-test st.bs f.id good (small fid f e) in
                rw (req, e')
                  (inl (
                    f,
                    record { found = e; wire = w; value = (old, v, map_err-ok _ _ r) },
                    (
                      g',
                      λ j.
                          t' j
                          ∙ ap (λ c. if c then ok true else test j st.bs)
                              (sym (or_false (f.id == j))),
                    ),
                  )))
    ]

    skip_field-Tells :
        (b : Buf) (tp fid : ℕ) (g : Option TField) (st : State)
        → IsBitset st.bs
        → get_field sd fid ≡ ok g
        → known_field g tp ≡ none
        → Tells (Round b tp fid st) Never (skip_field rt sd tp fid (behind 0 b) st)
    unfolding skip_field
    skip_field-Tells b tp fid g st good e k =
        Tells-bind Always (Round b tp fid st) Never _ _
          (Tells-skip_field_err fid (rt.skip tp (behind 0 b)))
          λ n r _. inr (record { found = (g, e, k); skipped = map_err-ok _ _ r }, (good, λ j. refl))

    decode_round-Tells :
        (b : Buf) (tp fid : ℕ) (st : State)
        → IsBitset st.bs
        → Tells (Round b tp fid st) Never (decode_round rt dec sd tp fid (behind 0 b) st)
    unfolding decode_round
    decode_round-Tells b tp fid st good =
        Tells-bind Always (Round b tp fid st) Never (get_field sd fid) _ (get_field-Tells sd fid)
          λ g e _. elim (Option-cases (known_field g tp)) [
            | inl k ↦ rw k (skip_field-Tells b tp fid g st good e k)
            | inr (f, k) ↦
                let (q, w) = known_field-some g tp k in
                rw k (decode_field-Tells b tp fid f st good (rw q at e) w)
          ]

    Round-IsBitset :
        (b : Buf) (tp fid : ℕ) (st : State) (r : ℕ × State) → Round b tp fid st r → IsBitset r.1.bs
    Round-IsBitset b tp fid st r (inl (f, k, s)) = s.0
    Round-IsBitset b tp fid st r (inr (u, s)) = s.0

    -- What the loop leaves behind.
    abbrev pub Loop : Buf → State → State → Type 0
    Loop b st st' = (ids : List ℕ) × Trace b ids × Sets ids st.bs st'.bs

    Round-Loop :
        (b : Buf) (tp fid : ℕ) (st st₁ st₂ : State) (n : ℕ)
        → IsHeader b tp fid
        → Round b tp fid st (n, st₁)
        → Loop (behind n b) st₁ st₂
        → Loop b st st₂
    Round-Loop b tp fid st st₁ st₂ n h (inl (f, k, (good, t))) (ids, walk, (good', t')) = (
      f.id ∷ ids,
      known b tp fid n f h k walk,
      (
        good',
        λ j.
            either (f.id == j) (elem j ids) true (test j st.bs) (test j st₁.bs) (test j st₂.bs)
              (t j ∙ ap (λ c. if c then ok true else test j st.bs) (or_false (f.id == j))) (t' j),
      ),
    )
    Round-Loop b tp fid st st₁ st₂ n h (inr (u, (good, t))) (ids, walk, (good', t')) = (
      ids,
      unknown b tp fid n h u walk,
      (good', λ j. t' j ∙ ap (λ r. if elem j ids then ok true else r) (t j)),
    )

    pub decode_fields-Tells :
        (fuel : ℕ) (b : Buf) (st : State)
        → IsBitset st.bs
        → Tells (Loop b st) Never (decode_fields rt dec sd fuel b st)
    unfolding decode_fields after_type
    decode_fields-Tells zero b st good = tt
    decode_fields-Tells (suc fuel) b st good =
        Tells-bind Always (Loop b st) Never (read_byte b) _ (read_byte-Tells b) λ tp e _.
          elim (Bool-cases (tp == 0)) [
            | inl z ↦ rw (z, after_type) ([], stop b (e ∙ ap ok (is_zero tp z)), (good, λ j. refl))
            | inr z ↦
                rw (z, after_type)
                  (Tells-bind Always (Loop b st) Never (read_uint16 (drop 1 b)) _
                    (read_uint16-Tells (drop 1 b))
                    λ fid i _.
                      Tells-bind (Round b tp fid st) (Loop b st) Never
                        (decode_round rt dec sd tp fid (behind 0 b) st) _
                        (decode_round-Tells b tp fid st good)
                        λ (n, st₁) _ r.
                          Tells-bind (λ b'. b' ≡ behind n b) (Loop b st) Never
                            (slice_from (behind 0 b) n) _ (slice_from-Tells (behind 0 b) n)
                            λ b' _ q.
                              Tells-weaken (Loop b' st₁) (Loop b st)
                                (decode_fields rt dec sd fuel b' st₁)
                                (decode_fields-Tells fuel b' st₁
                                  (Round-IsBitset b tp fid st (n, st₁) r))
                                λ st₂ l.
                                  Round-Loop b tp fid st st₁ st₂ n
                                    (record { type = e; goes_on = z; id = i }) r (rw q at l))
          ]
