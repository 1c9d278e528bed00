-- ===== src/Lib.antt =====
-- known is a knowledge graph for coding agents: entries of text with embeddings, joined by typed
-- and weighted edges, in a store that a query engine searches and the commands work on. This
-- library models the core of the program, and states and proves its correctness.
--
-- The parts and their files:
-- Model (model/*.go): the data. Model.Types has ids, metadata, sources, freshness and sessions;
--   Model.Scope the dotted paths (ParseScopePath is `parse_scope_path`, IsAncestorOf
--   `is_ancestor_of`, CommonAncestor `common_ancestor`); Model.Edge and Model.Entry the edges and
--   the entries with their Validate. An id is the number of its 128 bits.
-- Storage (storage/storage.go): the repositories as records of operations over a state S. A read
--   answers from a state, a write returns the next one. The models of the engine and the commands
--   take any; Sqlite.Repos gives those of the SQLite store. Storage.IdSlice is storage/idslice.go.
-- Sqlite (storage/sqlite/*.go and its migrations): Sqlite.Tables has the rows of the tables and the
--   SQL predicates, Sqlite.Scope scope.go, Sqlite.Edge edge.go, Sqlite.Entry the writes of entry.go
--   and Get, Sqlite.Labels loadLabelsForResults and its like, Sqlite.Fts sanitizeFTS5Query,
--   Sqlite.Search List, SearchSimilar, SearchText and FindConflicts, Sqlite.Vec vec.go,
--   Sqlite.Session session.go, Sqlite.Tx WithTx and the transactions of Create and CreateOrUpdate,
--   Sqlite.Migrate Migrate. Sqlite.Consistent is the invariant of the tables, Sqlite.Reachable the
--   states that calls lead to.
-- Query (query/*.go): the engine over these repositories. Query.Types has the results and options,
--   Query.Score and Query.Sort the scores and sortResultsByScore, Query.Enrich enrichConflicts and
--   enrichSuperseded, Query.Vector and Query.Text SearchVector and SearchText, Query.Graph
--   Traverse, Query.Path FindPath, Query.Expand, Query.Fusion and Query.Hybrid SearchHybrid with
--   expandFromEntry and fuseByRRF, Query.Conflict the conflict pairs, Query.Suggest SuggestLinks,
--   Query.Reinforce the edge weights that follow a session's events.
-- Embed (embed/cache.go): the cache in front of an embedder.
-- Cmd: Cmd.ScopeName is QualifyScope of cmd/config.go and ResolveScope of cmd/scope_resolve.go,
--   Cmd.ResolveEntry resolveEntryConfident of cmd/resolve.go, Cmd.ReEmbed and Cmd.Import runImport of
--   cmd/import.go on the SQLite store. The commands call the engine and the repositories.
-- Fixture and the modules named Examples: concrete data, and the theorems at work on it.
--
-- Conventions: a Go error is a value of `Error`, the format of its message without the arguments,
-- wrapped as by `%w`; a result with an error is a `Result`. A string is the list of its bytes. A
-- limit, depth or duration that may be negative is a `ℤ`. A set or map keyed by an id's text is
-- keyed by the id. Where Go ranges over a map, the order is an argument `range`. A float64 is its
-- bit pattern, and its arithmetic is the record `FloatOps`, whose laws are those of IEEE 754
-- comparisons and products. The time, new ids, strings.ToLower, SHA-256 and the transaction of the
-- database are arguments, since they are not code of the repository.
--
-- Tables: the SQLite database is the record `Db` of its tables, each a list of rows in the order of
-- insertion. A statement is a function on it, with the keys, foreign keys, checks and cascades of
-- migrations/*.sql; LIKE has its wildcards and its case folding; the columns of times keep
-- milliseconds. ORDER BY and sort.Slice are stable sorts, and rows that tie stay in their order.
-- The encoding of JSON and of ids, the answers of the driver to BEGIN and COMMIT, and the full-text
-- index are arguments.
--
-- Fuel: the loops of Traverse, FindPath and expandFromEntry (`for len(queue) > 0`) run on fuel in
-- Query.Bfs. Each round takes an item off the queue, and an entry is queued only when it is seen
-- for the first time, so the fuel to give is two rounds more than there are entries for Traverse,
-- and two rounds more than there are ids of entries and of ends of edges for FindPath. The batches of
-- labels are cut with one round for each id, and a batch takes at least one.
--
-- Not modelled: the Postgres store, New and Close of the SQLite store, which only call the driver,
-- the clients of embedding services, JSON, the web interface, the commands' flags and printing,
-- configuration files, the benchmarks, and the lock of the cache (a call runs alone).
pub mod Prelude
pub mod Model
pub mod Storage
pub mod Sqlite
pub mod Query
pub mod Cmd
pub mod Embed
pub mod Fixture
