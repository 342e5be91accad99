-- ===== src/Decode/RoundTrip/Objects.antt =====
-- The entries Append, EncodedSize and Decode, one behind the other.
use frugal.Decode.Runtime.{Runtime}
