-- ===== src/Cmd.antt =====
-- The commands' own logic (cmd/*.go): qualifying and resolving scopes, resolving entries, and importing.
pub mod ScopeName
pub mod ResolveEntry
pub mod ReEmbed
pub mod Import
