-- ===== src/Correct.antt =====
-- The codec of internal/reflect against the wire form of Spec.
pub mod MapCount
pub mod Words
pub mod FastPaths
pub mod Scalars
pub mod Defaults
pub mod Fields
pub mod Loops
pub mod Append
pub mod Shapes
pub mod Measure
pub mod SizeShapes
pub mod SizeForms
pub mod Size
pub mod Object
