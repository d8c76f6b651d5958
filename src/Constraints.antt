-- ===== src/Constraints.antt =====
-- internal/generator/constraints.go: from a validate tag to the keywords of a schema.
pub mod Bounds
pub mod Tokens
pub mod Rules
pub mod Scalars
pub mod Sets
pub mod Order
pub mod Folds
pub mod Cardinality
pub mod LengthRules
pub mod Lengths
pub mod Words
pub mod Numeric
