-- ===== src/Model.antt =====
-- The data model of the knowledge graph (model/*.go): ids, metadata, sources, freshness, sessions,
-- and in the children scopes, edges and entries.
pub mod Types
pub mod Scope
pub mod Edge
pub mod Entry
pub mod Examples
