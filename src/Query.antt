-- ===== src/Query.antt =====
-- The query engine (query/*.go): its types in `Types`, its scores and sort in `Score` and `Sort`,
-- and a child for each kind of query.
pub mod Types
pub mod Score
pub mod Sort
pub mod Enrich
pub mod Vector
pub mod Text
pub mod Conflict
pub mod Bfs
pub mod Readable
pub mod Graph
pub mod Path
pub mod Expand
pub mod Fusion
pub mod Hybrid
pub mod Suggest
pub mod Reinforce
