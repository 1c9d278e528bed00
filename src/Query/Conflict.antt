-- ===== src/Query/Conflict.antt =====
-- query/conflict.go: entries in conflict with one, and all conflict pairs of a scope.
pub mod Pairs
pub mod Examples
use known.Prelude.{
  true, false, List, [], ◌∷◌, ◌++◌, map, member, if◌then◌else◌, is_not_found, Result, ok, err,
  errorf, wrap, fail_if, with_context, ◌>>=◌, ◌>>◌,
}
use known.Prelude.Int.{pos}
use known.Prelude.Text.{Text, is_empty}
use known.Model.Types.{Id128, is_zero}
use known.Model.Edge.{Edge, edge_contradicts}
use known.Model.Entry.{Entry}
use known.Storage.{EntryFilter, EdgeFilter}
use known.Query.Types.{QueryResult, hit, traversal, ConflictPair, Engine}

abbrev pub conflict_hit : Id128 → Entry → QueryResult
conflict_hit entry_id c = record (hit c traversal 1) {
  has_conflict = true;
  conflicts = entry_id ∷ [];
}

abbrev pub scope_filter : Text → EntryFilter
scope_filter scope = record {
  scope = [];
  scope_prefix = scope;
  source_type = [];
  provenance_level = [];
  labels = [];
  staler_than = pos 0;
  include_expired = false;
  limit = pos 0;
  offset = pos 0;
}

abbrev pub contradicts_filter : EdgeFilter
contradicts_filter = record { type = edge_contradicts; limit = pos 0 }

-- The ids of the edges seen, and the pairs so far.
pub record Scan : Type 0 where
  pub seen_edges : List Id128
  pub pairs : List ConflictPair

add_pair : Entry → Edge → Scan → Result Entry → Result Scan
add_pair entry edge s (ok other) =
    ok (record s {
      pairs = s.pairs ++ record { entry_a = entry; entry_b = other; edge = edge } ∷ [];
    })
add_pair entry edge s (err e) = if is_not_found e then ok s else err (wrap "get conflict entry" e)

module _ {S : Type 0} (engine : Engine S) (db : S) where
  unfoldable pub find_conflicts : Id128 → Result (List QueryResult)
  find_conflicts entry_id = do
    fail_if (is_zero entry_id) (errorf "entry ID is required")
    conflicts ← with_context "find conflicts" (engine.edges.find_conflicts db entry_id)
    ok (map (conflict_hit entry_id) conflicts)

  scan_edge : Entry → Scan → Edge → Result Scan
  unfolding add_pair
  scan_edge entry s edge =
      if member edge.id s.seen_edges
      then ok s
      else add_pair entry edge (record s { seen_edges = edge.id ∷ s.seen_edges })
          (engine.entries.get db edge.to_id)

  scan_edges : Entry → Scan → List Edge → Result Scan
  unfolding scan_edge
  scan_edges entry s [] = ok s
  scan_edges entry s (edge ∷ rest) = do s' ← scan_edge entry s edge; scan_edges entry s' rest

  scan_entries : Scan → List Entry → Result Scan
  unfolding scan_edges
  scan_entries s [] = ok s
  scan_entries s (entry ∷ rest) = do
    contradicts ← with_context "edges from" (engine.edges.edges_from db entry.id contradicts_filter)
    s' ← scan_edges entry s contradicts
    scan_entries s' rest

  unfoldable pub detect_all_conflicts : Text → Result (List ConflictPair)
  unfolding scan_entries
  detect_all_conflicts scope = do
    fail_if (is_empty scope) (errorf "scope is required")
    entries ← with_context "list entries" (engine.entries.list db (scope_filter scope))
    s ← scan_entries (record { seen_edges = []; pairs = [] }) entries
    ok s.pairs
