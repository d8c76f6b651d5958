-- ===== src/Commands.antt =====
-- internal/commands: the generate, doctor and validate commands. What a command does to the files
-- and prints is a state that is passed on; the operating system, the analyzer's result, the YAML and
-- JSON encoders and the version libraries are parameters.
pub mod Monad
pub mod Unresolved
pub mod System
pub mod Stats
pub mod Compat
pub mod Options
pub mod Json
pub mod Generate
pub mod Doctor
