-- ===== src/Query/Graph.antt =====
-- Traverse of query/graph.go: breadth-first traversal from an entry.
-- The set `visited` is keyed by the text of an id; here it holds the ids.
pub mod Visits
pub mod Walks
pub mod Sound
pub mod Returns
pub mod Known
pub mod Complete
pub mod Finds
pub mod Examples
pub mod Distinct
use known.Prelude.{
  ℕ, zero, suc, Bool, true, false, Option, none, some, List, [], ◌∷◌, ◌++◌, leb, member,
  if◌then◌else◌, Error, is_not_found, Result, ok, err, errorf, wrap, fail_if, with_context, ◌>>=◌,
  ◌>>◌,
}
use known.Prelude.Int.{or_default}
use known.Model.Types.{Id128, is_zero}
use known.Model.Edge.{Edge}
use known.Model.Entry.{Entry}
use known.Storage.{EdgeFilter}
use known.Query.Types.{
  QueryResult, hit, traversal, GraphDirection, follows_out, follows_in, GraphOptions, Engine,
  neighbor, filter_of, is_excluded_type,
}
use known.Query.Bfs.{Run, returned, failed, out_of_fuel, Turn, next, stop, loop, lift}
use known.Query.Bfs
use known.Query.Enrich.{enrich_conflicts}

-- bfsItem
pub record Item : Type 0 where
  pub entry_id : Id128
  pub depth : ℕ
  pub edge_path : List Edge

pub record Search : Type 0 where
  pub visited : List Id128
  pub results : List QueryResult
  pub queue : List Item

take_first : List Item → Search → Option (Item × Search)
take_first [] s = none
take_first (i ∷ q) s = some (i, record s { queue = q })

pub pop : Search → Option (Item × Search)
unfolding take_first
pop s = take_first s.queue s

pub found : Item → Edge → Entry → QueryResult
found current edge entry = record (hit entry traversal (suc current.depth)) {
  edge_path = current.edge_path ++ edge ∷ [];
}

pub found_item : Item → Edge → Id128 → Item
found_item current edge id = record {
  entry_id = id;
  depth = suc current.depth;
  edge_path = current.edge_path ++ edge ∷ [];
}

-- What follows entries.Get for a neighbor: it is reported and queued, or skipped if deleted.
pub reach_neighbor : Item → Edge → Id128 → Search → Result Entry → Result Search
unfolding found found_item
reach_neighbor current edge id s (ok entry) = ok (record s {
  results = s.results ++ found current edge entry ∷ [];
  queue = s.queue ++ found_item current edge id ∷ [];
})
reach_neighbor current edge id s (err e) = if is_not_found e then ok s else err (wrap "get entry" e)

module _ {S : Type 0} (engine : Engine S) (db : S) where
  -- The edges at an entry, by direction.
  unfoldable pub edges_at : GraphDirection → EdgeFilter → Id128 → Result (List Edge)
  edges_at direction filter id = do
    out ←
        if follows_out direction
        then with_context "edges from" (engine.edges.edges_from db id filter)
        else ok []
    in' ←
        if follows_in direction
        then with_context "edges to" (engine.edges.edges_to db id filter)
        else ok []
    ok (out ++ in')

  module _ (opts : GraphOptions) where
    pub visit_edge : Item → Search → Edge → Result Search
    visit_edge current s edge =
        let id = neighbor edge current.entry_id in
        if is_excluded_type opts.edge_types edge.type
        then ok s
        else if member id s.visited
        then ok s
        else reach_neighbor current edge id (record s { visited = id ∷ s.visited })
            (engine.entries.get db id)

    pub visit_edges : Item → Search → List Edge → Result Search
    visit_edges current s [] = ok s
    visit_edges current s (edge ∷ rest) = do
      s' ← visit_edge current s edge
      visit_edges current s' rest

    pub turn : Item → Search → Result (Turn Search ⊥)
    turn current s = if leb (or_default opts.max_depth 1) current.depth then ok (next s) else do
      edges ← edges_at opts.direction (filter_of opts.edge_types) current.entry_id
      s' ← visit_edges current s edges
      ok (next s')

    unfoldable pub start_results : Result (List QueryResult)
    start_results =
        if opts.include_start
        then (do
          entry ← with_context "get start entry" (engine.entries.get db opts.start_id)
          ok (hit entry traversal 0 ∷ []))
        else ok []

    pub start_search : List QueryResult → Search
    start_search results = record {
      visited = opts.start_id ∷ [];
      results = results;
      queue = record { entry_id = opts.start_id; depth = 0; edge_path = [] } ∷ [];
    }

    -- The result of the loop, enriched.
    pub finish : Turn Search ⊥ → Run (List QueryResult)
    finish (next s) =
        lift (with_context "enrich conflicts" (enrich_conflicts engine.edges db s.results))
    finish (stop r) = absurd r

    pub traverse : ℕ → Run (List QueryResult)
    traverse fuel =
        Bfs.◌>>=◌ (lift (fail_if (is_zero opts.start_id) (errorf "start ID is required"))) λ _.
          Bfs.◌>>=◌ (lift start_results)
            λ results. Bfs.◌>>=◌ (loop pop turn fuel (start_search results)) finish
