-- ===== src/Analyzer.antt =====
-- internal/analyzer: what the analyzer decides about fields, tags, directives, paths and types, as
-- functions of what it has read. The reading of files and the walk of the syntax tree are not
-- modelled.
pub mod Embed
pub mod Payload
pub mod Merge
pub mod Binding
pub mod Tags
pub mod Paths
pub mod Directive
pub mod Constructors
