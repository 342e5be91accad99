-- ===== src/Entry.antt =====
-- The entries of the library that encode: EncodedSize and Append of internal/reflect/reflect.go,
-- and EncodeObject of frugal.go. The struct's descriptor is given; `v` is the struct that the
-- interface value holds or points to, or `nil`.
use frugal.Base.{ℕ, [], length, Outcome, ok, err, index_out_of_range, ◌>>=◌, ltb}
use frugal.Base.{if◌then◌else◌}
use frugal.Wire.{Buf}
use frugal.Value.{Val}
use frugal.Desc.{StructDesc}
use frugal.Encode.{append_struct}
use frugal.Size.{encoded_size}
use frugal.Codec.{base_of}

module _ (ds : ℕ → StructDesc) (s : ℕ) where
  unfoldable pub append : Buf → Val → Outcome Buf
  append b v = do base ← base_of ds v; append_struct (ds s) b base

  unfoldable pub object_size : Val → Outcome ℕ
  object_size v = do base ← base_of ds v; encoded_size (ds s) base

  -- EncodeObject into a buffer of `n` bytes: the bytes written, whose number it returns. An error of
  -- Append comes without its bytes here; the source returns the index error in its place where the
  -- bytes before the error are more than the buffer holds.
  unfoldable pub encode_object : ℕ → Val → Outcome Buf
  encode_object n v = do
    ret ← append [] v
    if ltb n (length ret) then err (index_out_of_range (length ret) n) else ok ret
