-- ===== src/Decode/RoundTrip.antt =====
-- The decoder of internal/reflect/decoder.go on the wire form of Spec.
pub mod Leaves
pub mod Sequences
pub mod Structs
pub mod FieldLoop
pub mod Loop
pub mod Unknowns
pub mod Body
pub mod Shapes
pub mod LeastSizes
pub mod Keys
pub mod Nested
pub mod Children
pub mod Values
pub mod Objects
pub mod Same
