-- ===== src/Decode/Unknown.antt =====
-- The bytes of fields that a struct does not know, as Decode finds them: written from the protocol.
use frugal.Base.{
  ℕ, ◌^◌, ◌<◌, ◌≡◌, ◌≢◌, true, List, [], ◌∷◌, ◌++◌, Option, none, some, length, All, ok,
}
use frugal.Wire.{Buf}
use frugal.Types.{wire_type}
use frugal.Desc.{TField, StructDesc, get_field}
use frugal.Spec.{big_endian}
use frugal.Decode.Runtime.{Runtime}

-- A field as it is on the wire: its type, its ID, its value.
pub record Piece : Type 0 where
  pub tp : ℕ
  pub fid : ℕ
  pub body : Buf

abbrev pub piece_form : Piece → Buf
piece_form p = p.tp ∷ (big_endian 2 p.fid ++ p.body)

unfoldable pub unknown_form : List Piece → Buf
unknown_form [] = []
unknown_form (p ∷ ps) = piece_form p ++ unknown_form ps

-- No field of the ID, or one of another type.
abbrev pub IsOther : ℕ → Option TField → Type 0
IsOther tp none = Unit
IsOther tp (some f) = wire_type f.type ≢ tp

-- The struct keeps unknown fields, it does not know the field, and Skip passes over the value.
pub record IsUnknown (rt : Runtime) (sd : StructDesc) (p : Piece) : Type 0 where
  pub kept : sd.has_unknown_fields ≡ true
  pub type : p.tp ≢ 0
  pub id : p.fid < 2 ^ 16
  pub known : Option TField
  pub found : get_field sd p.fid ≡ ok known
  pub other : IsOther p.tp known
  pub skipped : (rest : Buf) → rt.skip p.tp (p.body ++ rest) ≡ ok (length p.body)

abbrev pub HasUnknowns : Runtime → StructDesc → Buf → Type 0
HasUnknowns rt sd xb = (ps : List Piece) × (xb ≡ unknown_form ps) × All (IsUnknown rt sd) ps

-- The unknown fields of a struct that was decoded into: those on the wire in place of the old ones.
unfoldable pub kept_unknowns : Buf → Buf → Buf
kept_unknowns [] yb = yb
kept_unknowns (x ∷ xb) yb = x ∷ xb
