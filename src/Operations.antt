-- ===== src/Operations.antt =====
-- internal/generator/openapi.go: the operation of a route (buildOperation and what it calls).
pub mod Payloads
pub mod Responses
pub mod Parameters
pub mod Build
pub mod Paths
pub mod Declared
pub mod Replies
pub mod Slots
