-- ===== src/Decode/Bounds/Walk.antt =====
-- The decoder as a whole: at every depth, type and buffer it ends, and within the buffer.
use frugal.Base.{ℕ, zero, suc, ◌≤◌, ◌≡◌, ◌≢◌, ltb, length, Option-cases, inl, inr}
use frugal.Base.{ok, stuck, Runs, Runs-if, Runs-ok, Runs-ne-stuck}
use frugal.Wire.{Buf}
use frugal.Types.{DefType, TType, string_t, map_t, list_t, set_t, struct_t, ttype_of, fixed_size}
use frugal.Value.{Val, struct}
use frugal.Desc.{StructDesc}
use frugal.Codec.{struct_of}
use frugal.Decode.{Read}
use frugal.Decode.Runtime.{Runtime, Decoder}
use frugal.Decode.Walk.{
  decode_case, decode_type, decode_struct, decode_object, init_struct, max_depth_limit,
}
use frugal.Decode.Bounds.{Fits, IsBounded, decode_fixed_size_types-Runs, decode_string-Runs}
use frugal.Decode.Bounds.Containers.{decode_list-Runs, decode_map-Runs}
use frugal.Decode.Bounds.Fields.{IsSkip, decode_body-Runs}

module _ (rt : Runtime) (skips : IsSkip rt.skip) (ds : ℕ → StructDesc) where
  decode_case-Runs :
      (dec : Decoder) (dec_struct : StructDesc → Buf → Val → Read)
      → IsBounded dec
      → ((sd : StructDesc) (b : Buf) (old : Val) → Runs (Fits b) (dec_struct sd b old))
      → (k : TType) (t : DefType) (b : Buf) (old : Val)
      → Runs (Fits b) (decode_case rt ds dec dec_struct k t b old)
  unfolding decode_case
  decode_case-Runs dec dec_struct h g string_t t b old = decode_string-Runs b
  decode_case-Runs dec dec_struct h g map_t t b old = decode_map-Runs rt dec h t b
  decode_case-Runs dec dec_struct h g list_t t b old = decode_list-Runs rt dec h t b
  decode_case-Runs dec dec_struct h g set_t t b old = decode_list-Runs rt dec h t b
  decode_case-Runs dec dec_struct h g struct_t t b old = elim (Option-cases (struct_of t)) [
    | inl e ↦ rw (e, decode_case) tt
    | inr (s, e) ↦ rw (e, decode_case) (g (ds s) b (init_struct rt ds s old))
  ]
  decode_case-Runs dec dec_struct h g _ t b old = tt

  mutual
    unfolding decode_type

    pub decode_type-IsBounded : (d : ℕ) → IsBounded (decode_type rt ds d)
    decode_type-IsBounded zero t b old = tt
    decode_type-IsBounded (suc d) t b old =
        Runs-if (Fits b) (ltb 0 (fixed_size t)) _ _ (decode_fixed_size_types-Runs (ttype_of t) b) (
          decode_case-Runs (decode_type rt ds d) (decode_struct rt ds d) (decode_type-IsBounded d)
            (decode_struct-Runs d) (ttype_of t) t b old)

    pub decode_struct-Runs :
        (d : ℕ) (sd : StructDesc) (b : Buf) (old : Val)
        → Runs (Fits b) (decode_struct rt ds d sd b old)
    decode_struct-Runs zero sd b old = tt
    decode_struct-Runs (suc d) sd b (struct vs xb) =
        decode_body-Runs rt skips (decode_type rt ds d) (decode_type-IsBounded d) sd d b vs xb
    decode_struct-Runs (suc d) sd b _ = tt

  -- If Skip ends on every buffer and skips no more than the buffer has, Decode ends on every buffer:
  -- the rounds of its loops and the depth of its calls never run out of the model's fuel.
  pub decode_object-ne-stuck : (s : ℕ) (b : Buf) (v : Val) → decode_object rt ds s b v ≢ stuck
  unfolding decode_object
  decode_object-ne-stuck s b v =
      Runs-ne-stuck (Fits b) (decode_struct-Runs max_depth_limit (ds s) b v)

  -- If Skip ends on every buffer and skips no more than the buffer has, the number of bytes that
  -- Decode returns without an error is at most the buffer's length.
  pub decode_object-le :
      (s n : ℕ) (b : Buf) (v w : Val) → decode_object rt ds s b v ≡ ok (w, n) → n ≤ length b
  unfolding decode_object
  decode_object-le s n b v w h = Runs-ok (Fits b) h (decode_struct-Runs max_depth_limit (ds s) b v)
