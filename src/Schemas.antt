-- ===== src/Schemas.antt =====
-- internal/generator/openapi.go, from typeInfoToSchema to exampleInBounds: the schema of a field.
pub mod Examples
pub mod Validation
pub mod Leaves
pub mod Field
pub mod Typing
pub mod Refs
pub mod Fits
pub mod Alone
pub mod Required
