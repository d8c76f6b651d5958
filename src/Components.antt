-- ===== src/Components.antt =====
-- internal/generator/openapi.go: the component schemas of a document, and which are emitted.
pub mod Names
pub mod Standard
pub mod Schemas
pub mod Present
pub mod Emission
pub mod Grow
pub mod Covered
pub mod Closed
