-- ===== src/Tests.antt =====
-- The theorems at concrete inputs: a small project, its routes and types, and tags of fields.
mod Sample
mod Constraints
mod Schemas
mod Routes
mod Operations
mod Documents
mod Commands
mod Analyzer
