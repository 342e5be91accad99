-- ===== src/Decode/RoundTrip/Unknowns.antt =====
-- The loop over the fields on unknown fields and the stop byte, and what is copied of them.
use frugal.Base.{
  ℕ, zero, suc, ◌+◌, ◌≤◌, ◌<◌, ◌≡◌, refl, sym, ap, ◌∙◌, arith, ==_ne, List, [], ◌∷◌, ◌++◌, Option,
  none, some, length, take, drop, append_assoc, append-nil, length-append, drop-append, take-append,
  All,
}
use frugal.Base.{Outcome, ok, ◌>>=◌}
use frugal.Wire.{Buf, read_byte}
use frugal.Types.{wire_type, field_header_len}
use frugal.Desc.{TField, StructDesc}
use frugal.UnknownFields.{UnknownFields, Idx, reset, add, size, copy}
use frugal.UnknownFields.Copies.{
  IsCounted, Within, pieces, pieces-append, reset-IsCounted, add-IsCounted, copy-eq-pieces,
}
use frugal.Spec.{big_endian}
use frugal.Correct.Words.{length-big_endian}
use frugal.Decode.Runtime.{Runtime, Decoder}
use frugal.Decode.Fields.{
  State, known_field, skip_field, decode_field, decode_round, after_type, decode_fields,
}
use frugal.Decode.Unknown.{Piece, piece_form, unknown_form, IsOther, IsUnknown}
use frugal.Decode.RoundTrip.Leaves.{read_uint16-big_endian}
use frugal.Decode.RoundTrip.Sequences.{slice_from-append}

-- The places that are noted of fields from `i` on.
unfoldable pub notes : ℕ → List Piece → UnknownFields → UnknownFields
notes i [] u = u
notes i (p ∷ ps) u =
    notes (i + length (piece_form p)) ps (add i (length p.body + field_header_len) u)

known_field-other : (k : Option TField) (tp : ℕ) → IsOther tp k → known_field k tp ≡ none
unfolding known_field
known_field-other none tp h = refl
known_field-other (some f) tp h = rw (==_ne (wire_type f.type) tp h)

length-piece_form : (p : Piece) → length (piece_form p) ≡ length p.body + field_header_len
length-piece_form p =
    omega (arith, length-append (big_endian 2 p.fid) p.body, length-big_endian 2 p.fid)

-- The state behind unknown fields and the stop byte.
abbrev pub behind_unknowns : List Piece → State → State
behind_unknowns ps st = record st {
  ufs = notes st.i ps st.ufs;
  i = st.i + (length (unknown_form ps) + 1);
}

module _ (rt : Runtime) (dec : Decoder) (sd : StructDesc) where
  skipped :
      (p : Piece) (rest : Buf) (st : State)
      → IsUnknown rt sd p
      → skip_field rt sd p.tp p.fid (p.body ++ rest) st
        ≡ ok (
          length p.body,
          record st {
            ufs = add st.i (length p.body + field_header_len) st.ufs;
            i = st.i + length (piece_form p);
          },
        )
  unfolding skip_field
  skipped p rest st u =
      rw (u.skipped rest, u.kept)
        (ap
          (λ (a, b). ok (
            length p.body,
            record st { ufs = add a (length p.body + field_header_len) st.ufs; i = b },
          ))
          (pair_eq (omega arith) (omega (arith, length-piece_form p))))
    where
      pair_eq : {a b c d : ℕ} → a ≡ c → b ≡ d → ◌≡◌ {A = ℕ × ℕ} (a, b) (c, d)
      pair_eq e q = rw (e, q) refl

  -- One round on an unknown field.
  round_skipped :
      (p : Piece) (rest : Buf) (st : State)
      → IsUnknown rt sd p
      → decode_round rt dec sd p.tp p.fid (p.body ++ rest) st
        ≡ ok (
          length p.body,
          record st {
            ufs = add st.i (length p.body + field_header_len) st.ufs;
            i = st.i + length (piece_form p);
          },
        )
  unfolding decode_round
  round_skipped p rest st u =
      let go : Option TField → Outcome (ℕ × State) = λ k. elim k [
        | none ↦ skip_field rt sd p.tp p.fid (p.body ++ rest) st
        | some f ↦ decode_field rt dec sd f p.fid (p.body ++ rest) st
      ] in
      ap (λ m. m >>= λ k. go (known_field k p.tp)) u.found
      ∙ ap go (known_field-other u.known p.tp u.other)
      ∙ skipped p rest st u

  skipped_step :
      (fuel : ℕ) (p : Piece) (rest : Buf) (st : State)
      → IsUnknown rt sd p
      → decode_fields rt dec sd (suc fuel) (piece_form p ++ rest) st
        ≡ decode_fields rt dec sd fuel rest (record st {
          ufs = add st.i (length p.body + field_header_len) st.ufs;
          i = st.i + length (piece_form p);
        })
  unfolding decode_fields read_byte after_type
  skipped_step fuel p rest st u =
      let id = big_endian 2 p.fid in
      let tail : drop 2 (id ++ (p.body ++ rest)) ≡ p.body ++ rest =
        rw (length-big_endian 2 p.fid) at (drop-append id (p.body ++ rest)) in
      ap (λ z. decode_fields rt dec sd (suc fuel) (p.tp ∷ z) st) (append_assoc id p.body rest)
      ∙ rw (
        after_type,
        ==_ne p.tp 0 u.type,
        read_uint16-big_endian p.fid (p.body ++ rest) u.id,
        tail,
        round_skipped p rest st u,
        slice_from-append p.body rest,
      )

  -- The loop on unknown fields notes each of them, and ends behind the stop byte.
  pub unknowns_read :
      (ps : List Piece) (rest : Buf) (fuel : ℕ) (st : State)
      → All (IsUnknown rt sd) ps
      → length (unknown_form ps) < fuel
      → decode_fields rt dec sd fuel (unknown_form ps ++ (0 ∷ rest)) st ≡ ok (behind_unknowns ps st)
  unfolding unknown_form notes
  unknowns_read ps rest zero st u h = absurd (omega arith)
  unknowns_read [] rest (suc fuel) st u h = unfold decode_fields read_byte after_type in refl
  unknowns_read (p ∷ ps) rest (suc fuel) st (u, us) h =
      let l = length-append (piece_form p) (unknown_form ps) in
      ap (λ z. decode_fields rt dec sd (suc fuel) z st)
        (append_assoc (piece_form p) (unknown_form ps) (0 ∷ rest))
      ∙ skipped_step fuel p (unknown_form ps ++ (0 ∷ rest)) st u
      ∙ unknowns_read ps rest fuel _ us (omega (arith, h, l))
      ∙ ap
          (λ j. ok (record st {
            ufs =
                notes (st.i + length (piece_form p)) ps
                  (add st.i (length p.body + field_header_len) st.ufs);
            i = j;
          }))
          (omega (arith, l))

-- The notes account for all bytes of the fields, and lead to them.
notes-IsCounted :
    (ps : List Piece) (i : ℕ) (u : UnknownFields) → IsCounted u → IsCounted (notes i ps u)
unfolding notes
notes-IsCounted [] i u c = c
notes-IsCounted (p ∷ ps) i u c =
    notes-IsCounted ps _ _ (add-IsCounted i (length p.body + field_header_len) u c)

pub size-notes :
    (ps : List Piece) (i : ℕ) (u : UnknownFields)
    → size (notes i ps u) ≡ size u + length (unknown_form ps)
unfolding notes size add unknown_form
size-notes [] i u = omega arith
size-notes (p ∷ ps) i u =
    size-notes ps (i + length (piece_form p)) (add i (length p.body + field_header_len) u)
    ∙ omega (arith, length-append (piece_form p) (unknown_form ps), length-piece_form p)

Within-append : (b : Buf) (xs ys : List Idx) → Within b xs → Within b ys → Within b (xs ++ ys)
Within-append b [] ys h k = k
Within-append b (x ∷ xs) ys (h, hs) k = (h, Within-append b xs ys hs k)

notes-Within :
    (ps : List Piece) (b : Buf) (i : ℕ) (u : UnknownFields)
    → Within b u.offs
    → i + length (unknown_form ps) ≤ length b
    → Within b (notes i ps u).offs
unfolding notes add unknown_form
notes-Within [] b i u w h = w
notes-Within (p ∷ ps) b i u w h =
    let l = length-append (piece_form p) (unknown_form ps) in
    notes-Within ps b (i + length (piece_form p)) (add i (length p.body + field_header_len) u)
      (Within-append b u.offs _ w (omega (arith, h, l, length-piece_form p), tt))
      (omega (arith, h, l))

piece_at : (n : ℕ) (pre w t : Buf) → n ≡ length w → take n (drop (length pre) (pre ++ (w ++ t))) ≡ w
piece_at n pre w t e = rw (e, drop-append pre (w ++ t), take-append w t)

noted :
    (p : Piece) (pre r tail : Buf) (u : UnknownFields)
    → pieces
        (pre ++ ((piece_form p ++ r) ++ tail))
        (add (length pre) (length p.body + field_header_len) u).offs
      ≡ pieces (pre ++ ((piece_form p ++ r) ++ tail)) u.offs ++ piece_form p
unfolding add pieces
noted p pre r tail u =
    let w = piece_form p in
    let b = pre ++ ((w ++ r) ++ tail) in
    let n = length p.body + field_header_len in
    pieces-append b u.offs _
    ∙ ap (λ z. pieces b u.offs ++ (take n (drop (length pre) (pre ++ z)) ++ []))
        (append_assoc w r tail)
    ∙ ap (λ z. pieces b u.offs ++ z)
        (append-nil _ ∙ piece_at n pre w (r ++ tail) (sym (length-piece_form p)))

pieces-notes :
    (ps : List Piece) (pre tail : Buf) (u : UnknownFields)
    → pieces (pre ++ (unknown_form ps ++ tail)) (notes (length pre) ps u).offs
      ≡ pieces (pre ++ (unknown_form ps ++ tail)) u.offs ++ unknown_form ps
unfolding notes unknown_form
pieces-notes [] pre tail u = sym (append-nil _)
pieces-notes (p ∷ ps) pre tail u =
    let w = piece_form p in
    let n = length p.body + field_header_len in
    let b = pre ++ ((w ++ unknown_form ps) ++ tail) in
    let whole : (pre ++ w) ++ (unknown_form ps ++ tail) ≡ b =
      append_assoc pre w (unknown_form ps ++ tail)
      ∙ ap (λ z. pre ++ z) (sym (append_assoc w (unknown_form ps) tail)) in
    let rest =
      rw (length-append pre w, whole) at (pieces-notes ps (pre ++ w) tail (add (length pre) n u)) in
    rest
    ∙ ap (λ z. z ++ unknown_form ps) (noted p pre (unknown_form ps) tail u)
    ∙ append_assoc _ w (unknown_form ps)

-- What is copied of them is their bytes.
pub copy-notes :
    (ps : List Piece) (pre tail mem : Buf) (u : UnknownFields)
    → length mem ≡ size (notes (length pre) ps (reset u))
    → copy (notes (length pre) ps (reset u)) mem (pre ++ (unknown_form ps ++ tail))
      ≡ ok (unknown_form ps)
unfolding reset pieces
copy-notes ps pre tail mem u h =
    let b = pre ++ (unknown_form ps ++ tail) in
    copy-eq-pieces (notes (length pre) ps (reset u)) mem b
      (notes-IsCounted ps (length pre) (reset u) (reset-IsCounted u))
      (notes-Within ps b (length pre) (reset u) tt (
        omega (
          arith,
          length-append pre (unknown_form ps ++ tail),
          length-append (unknown_form ps) tail,
        )))
      h
    ∙ ap ok (pieces-notes ps pre tail (reset u))
