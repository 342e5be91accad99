-- ===== src/Decode/RoundTrip/Body.antt =====
-- Decode on the wire form of a struct.
use frugal.Base.{
  ℕ, suc, ◌+◌, ◌^◌, ◌<◌, ◌≡◌, refl, sym, ap, ◌∙◌, arith, Bool, true, false, ◌&&◌, Bool-cases,
}
use frugal.Base.{
  List, [], ◌∷◌, ◌++◌, All, none, length, append_assoc, length-append, inl, inr, if◌then◌else◌,
}
use frugal.Base.{Outcome, ok, ◌>>=◌, lt→ltb}
use mathlib.Core.Path.{subst}
use frugal.Wire.{Buf}
use frugal.Value.{Val, Vals, struct, len_vals}
use frugal.Desc.{
  Requiredness, TField, StructDesc, is_required, is_optional, required_ids, required, optional,
  default_req,
}
use frugal.Desc.Sizes.{IsDesc, SkipsOptional}
use frugal.Desc.Table.{IsTable}
use frugal.Bitset.{Bitset, test}
use frugal.Bitset.Laws.{IsBitset}
use frugal.UnknownFields.{UnknownFields, reset, size}
use frugal.Spec.{Form, is_omitted, fields_form, struct_form}
use frugal.Decode.{Read}
use frugal.Decode.Required.{unset_all, first_unset, IsIds, unset_all-Marks, Marks}
use frugal.Decode.Runtime.{Runtime, Decoder}
use frugal.Decode.Fields.{State, has_required, decode_fields, finish, decode_body}
use frugal.Decode.Result.{Place, patch}
use frugal.Decode.Unknown.{Piece, piece_form, unknown_form, IsUnknown, kept_unknowns}
use frugal.Decode.RoundTrip.Unknowns.{notes, behind_unknowns, unknowns_read, size-notes, copy-notes}
use frugal.Decode.RoundTrip.FieldLoop.{FieldReads, IsMarked}
use frugal.Decode.RoundTrip.Loop.{loop_read}

-- Only an optional field is left out.
is_omitted-is_optional :
    (f : TField) (v : Val) → SkipsOptional f → is_omitted f v ≡ true → is_optional f.spec ≡ true
unfolding is_omitted
is_omitted-is_optional f v s h = elim (Bool-cases f.can_skip_encode_if_nil) [
  | inl e ↦ s.if_nil e
  | inr e ↦ elim (Bool-cases f.can_skip_if_default) [
    | inl d ↦ s.if_default d
    | inr d ↦ absurd (false_ne (rw (is_omitted, e, d) at h))
  ]
]
  where
    false_ne : false ≡ true → ⊥
    false_ne q = cc

required_ne : (r : Requiredness) → is_required r ≡ true → is_optional r ≡ true → ⊥
required_ne required p q = cc
required_ne optional p q = cc
required_ne default_req p q = cc

required_ids-IsIds : (fs : List TField) → All (λ f. f.id < 2 ^ 16) fs → IsIds (required_ids fs)
unfolding required_ids
required_ids-IsIds [] h = tt
required_ids-IsIds (f ∷ fs) (lt, h) = elim (Bool-cases (is_required f.spec)) [
  | inl e ↦ rw e (lt, required_ids-IsIds fs h)
  | inr e ↦ rw e (required_ids-IsIds fs h)
]

first_unset-none :
    (ids : List ℕ) (s : Bitset) → All (λ j. test j s ≡ ok true) ids → first_unset ids s ≡ ok none
unfolding first_unset
first_unset-none [] s h = refl
first_unset-none (j ∷ ids) s (t, h) = rw (t, first_unset-none ids s h)

pub no_unknown : (c : Bool) (x y : Read) → (if c && false then x else y) ≡ y
no_unknown true x y = refl
no_unknown false x y = refl

-- Unknown bytes are on the wire only if the struct keeps them, and then there are some to keep.
written :
    (rt : Runtime) (sd : StructDesc) (pieces : List Piece) (b : Buf)
    → All (IsUnknown rt sd) pieces
    → b ++ ((if sd.has_unknown_fields then unknown_form pieces else []) ++ (0 ∷ []))
      ≡ b ++ (unknown_form pieces ++ (0 ∷ []))
written rt sd [] b h =
    unfold unknown_form in ap (λ z. b ++ (z ++ (0 ∷ []))) (same sd.has_unknown_fields)
  where
    same : (c : Bool) → ◌≡◌ {A = Buf} (if c then [] else []) []
    same true = refl
    same false = refl
written rt sd (p ∷ pieces) b (u, us) = rw (u.kept) refl

module _ (rt : Runtime) (dec : Decoder) (sd : StructDesc) (forms : List (Val × Form))
    (ps : List Place) (desc : IsDesc sd) (table : IsTable sd) where
  marked_ids :
      (fs : List TField) (s : Bitset)
      → has_required sd ≡ true
      → All SkipsOptional fs
      → All (IsMarked rt dec sd forms ps s) fs
      → All (λ j. test j s ≡ ok true) (required_ids fs)
  unfolding required_ids
  marked_ids [] s r h m = tt
  marked_ids (f ∷ fs) s r (h, hs) (m, ms) = elim (Bool-cases (is_required f.spec)) [
    | inl e ↦ rw e (marked f s r h m e, marked_ids fs s r hs ms)
    | inr e ↦ rw e (marked_ids fs s r hs ms)
  ]
    where
      marked :
          (f : TField) (s : Bitset)
          → has_required sd ≡ true
          → SkipsOptional f
          → IsMarked rt dec sd forms ps s f
          → is_required f.spec ≡ true
          → test f.id s ≡ ok true
      marked f s r h (inl (v, form, e, om)) q =
          absurd (required_ne f.spec q (is_omitted-is_optional f v h om))
      marked f s r h (inr t) q = t r

  required_set :
      (ids : List ℕ) (s : Bitset)
      → sd.required_field_ids ≡ ids
      → All (IsMarked rt dec sd forms ps s) sd.fields
      → first_unset ids s ≡ ok none
  unfolding has_required
  required_set [] s e m = first_unset-none [] s tt
  required_set (j ∷ ids) s e m =
      let some_ids : has_required sd ≡ true = rw (has_required, e) in
      first_unset-none (j ∷ ids) s
        (rw (sym desc.required ∙ e) at (marked_ids sd.fields s some_ids desc.skips m))

  -- Behind the loop: the notes of unknown fields, if there are any, become the struct's.
  finish_read :
      (pieces : List Piece) (F rest yb : Buf) (u : UnknownFields) (st : State)
      → All (IsMarked rt dec sd forms ps st.bs) sd.fields
      → All (IsUnknown rt sd) pieces
      → ((n : ℕ) → length (rt.unknown_mem n) ≡ n)
      → finish rt sd
          (F ++ (unknown_form pieces ++ (0 ∷ rest)))
          yb
          (record st { ufs = notes (length F) pieces (reset u) })
        ≡ ok (struct st.vs (kept_unknowns (unknown_form pieces) yb), st.i)
  unfolding finish unknown_form kept_unknowns size reset notes
  finish_read [] F rest yb u st m us mem =
      rw (required_set sd.required_field_ids st.bs refl m) (no_unknown sd.has_unknown_fields _ _)
  finish_read (p ∷ pieces) F rest yb u st m (k, us) mem =
      let n = size-notes (p ∷ pieces) (length F) (reset u) in
      rw (
        required_set sd.required_field_ids st.bs refl m,
        k.kept,
        lt→ltb 0 (size (notes (length F) (p ∷ pieces) (reset u)))
            (omega (arith, n, length-append (piece_form p) (unknown_form pieces))),
        copy-notes (p ∷ pieces) F (0 ∷ rest) (rt.unknown_mem _) u (mem _),
      )

  loop_finish :
      (m : Outcome State) (pieces : List Piece) (F rest yb : Buf) (u : UnknownFields) (st : State)
      (i : ℕ)
      → m ≡ ok (behind_unknowns pieces (record st { ufs = reset u; i = i }))
      → i ≡ length F
      → All (IsMarked rt dec sd forms ps st.bs) sd.fields
      → All (IsUnknown rt sd) pieces
      → ((n : ℕ) → length (rt.unknown_mem n) ≡ n)
      → (m >>= λ st'. finish rt sd (F ++ (unknown_form pieces ++ (0 ∷ rest))) yb st')
        ≡ ok (
          struct st.vs (kept_unknowns (unknown_form pieces) yb),
          i + (length (unknown_form pieces) + 1),
        )
  loop_finish m pieces F rest yb u st i e q marks us mem =
      let b = F ++ (unknown_form pieces ++ (0 ∷ rest)) in
      let n = length (unknown_form pieces) + 1 in
      ap (λ m. m >>= λ st'. finish rt sd b yb st') e
      ∙ ap (λ j. finish rt sd b yb (record st { ufs = notes j pieces (reset u); i = i + n })) q
      ∙ finish_read pieces F rest yb u (record st { i = i + n }) marks us mem

  -- What Decode reads from the wire form of a struct whose fields are read back, into a struct that
  -- has them all: the fields that are on the wire written over the old ones, and the unknown fields
  -- that are on the wire in place of the old ones.
  pub body_read :
      (depth : ℕ) (pieces : List Piece) (rest yb : Buf) (ws : Vals)
      → ((b : Buf) → IsBitset (rt.bitset depth b))
      → ((n : ℕ) → length (rt.unknown_mem n) ≡ n)
      → All (IsUnknown rt sd) pieces
      → All (FieldReads rt dec sd forms ps (len_vals ws)) sd.fields
      → decode_body rt dec depth sd (struct_form sd forms (unknown_form pieces) ++ rest) ws yb
        ≡ ok (
          struct (patch sd.fields ps ws) (kept_unknowns (unknown_form pieces) yb),
          length (struct_form sd forms (unknown_form pieces)),
        )
  unfolding struct_form
  body_read depth pieces rest yb ws pool mem us reads =
      let F = fields_form sd.fields forms in
      let X = unknown_form pieces in
      let ids = subst IsIds (sym desc.required) (required_ids-IsIds sd.fields table.ids) in
      let whole : struct_form sd forms X ++ rest ≡ F ++ (X ++ (0 ∷ rest)) =
        ap (λ z. z ++ rest) (written rt sd pieces F us)
        ∙ append_assoc F (X ++ (0 ∷ [])) rest
        ∙ ap (λ z. F ++ z) (append_assoc X (0 ∷ []) rest) in
      let long : length (struct_form sd forms X) ≡ 0 + length F + (length X + 1) =
        ap length (written rt sd pieces F us)
        ∙ omega (arith, length-append F (X ++ (0 ∷ [])), length-append X (0 ∷ [])) in
      ap (λ b. decode_body rt dec depth sd b ws yb) whole
      ∙ run (
          unset_all-Marks sd.required_field_ids (rt.bitset depth (F ++ (X ++ (0 ∷ rest)))) ids
            (pool _))
      ∙ ap (λ k. ok (struct (patch sd.fields ps ws) (kept_unknowns X yb), k)) (sym long)
    where
      F : Buf
      F = fields_form sd.fields forms

      X : Buf
      X = unknown_form pieces

      b : Buf
      b = F ++ (X ++ (0 ∷ rest))

      start : Bitset → State
      start bs = record { vs = ws; bs = bs; ufs = reset (rt.unknowns depth b); i = 0 }

      run :
          Marks false sd.required_field_ids
            (rt.bitset depth b)
            (unset_all sd.required_field_ids (rt.bitset depth b))
          → decode_body rt dec depth sd b ws yb
            ≡ ok
                (struct (patch sd.fields ps ws) (kept_unknowns X yb), 0 + length F + (length X + 1))
      run (bs, e, good, t) =
          let l =
            loop_read rt dec sd forms ps (length X) (X ++ (0 ∷ rest)) (behind_unknowns pieces)
              (λ fuel st h. unknowns_read rt dec sd pieces rest fuel st us h) sd.fields
              (suc (length b)) (start bs) (len_vals ws) table.ids table.lookups reads refl good
              (omega (arith, length-append F (X ++ (0 ∷ rest)), length-append X (0 ∷ rest))) in
          unfold decode_body in
          ap
            (λ m. m >>= λ s.
              decode_fields rt dec sd (suc (length b)) b (start s) >>= λ st. finish rt sd b yb st)
            e
          ∙ loop_finish (decode_fields rt dec sd (suc (length b)) b (start bs)) pieces F rest yb
              (rt.unknowns depth b) (record (start bs) { vs = patch sd.fields ps ws; bs = l.bs })
              (0 + length F) l.run (omega arith) l.marks us mem
