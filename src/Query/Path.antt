-- ===== src/Query/Path.antt =====
-- FindPath and buildPathResults of query/graph.go: a shortest path between two entries.
pub mod Returns
pub mod Examples
use known.Prelude.{
  ℕ, suc, ◌||◌, Option, none, some, List, [], ◌∷◌, ◌++◌, leb, ◌==◌, member, length, if◌then◌else◌,
  is_not_found, Result, ok, err, errorf, wrap, fail_if, with_context, ◌>>=◌,
}
use known.Prelude.Int.{ℤ, or_default}
use known.Model.Types.{Id128, is_zero}
use known.Model.Edge.{Edge}
use known.Model.Entry.{Entry}
use known.Query.Types.{QueryResult, hit, traversal, Engine, neighbor, no_filter}
use known.Query.Bfs.{Run, returned, failed, out_of_fuel, Turn, next, stop, loop, lift}
use known.Query.Bfs

-- bfsItem
pub record Item : Type 0 where
  pub entry_id : Id128
  pub edge_path : List Edge
  pub depth : ℕ

pub record Search : Type 0 where
  pub visited : List Id128
  pub queue : List Item

take_first : List Item → Search → Option (Item × Search)
take_first [] s = none
take_first (i ∷ q) s = some (i, record s { queue = q })

pub pop : Search → Option (Item × Search)
unfolding take_first
pop s = take_first s.queue s

-- The loop of buildPathResults: the edges before, and the ids seen.
pub record Built : Type 0 where
  pub seen : List Id128
  pub results : List QueryResult

-- The end of the edge that has not been visited yet.
pub target : List Id128 → Edge → Id128
target seen edge = if member edge.from_id seen then edge.to_id else edge.from_id

add_hop : List Edge → Built → Result Entry → Result Built
add_hop path b (ok entry) = ok (record b {
  results = b.results ++ record (hit entry traversal (length path)) { edge_path = path } ∷ [];
})
add_hop path b (err e) = if is_not_found e then ok b else err (wrap "get path entry" e)

module _ {S : Type 0} (engine : Engine S) (db : S) where
  pub build_hop : List Edge → Built → Edge → Result Built
  unfolding target add_hop
  build_hop path b edge =
      let id = target b.seen edge in
      if member id b.seen
      then ok b
      else add_hop path (record b { seen = id ∷ b.seen }) (engine.entries.get db id)

  -- `before` holds the edges up to this one.
  pub build_hops : List Edge → Built → List Edge → Result Built
  build_hops before b [] = ok b
  build_hops before b (edge ∷ rest) = do
    b' ← build_hop (before ++ edge ∷ []) b edge
    build_hops (before ++ edge ∷ []) b' rest

  pub build_path_results : Id128 → List Edge → Result (List QueryResult)
  unfolding build_hops build_hop
  build_path_results start_id edges = do
    b ← build_hops [] (record { seen = start_id ∷ []; results = [] }) edges
    ok b.results

  -- All edges at an entry, in both directions.
  pub all_edges_at : Id128 → Result (List Edge)
  all_edges_at id = do
    out ← with_context "edges from" (engine.edges.edges_from db id no_filter)
    in' ← with_context "edges to" (engine.edges.edges_to db id no_filter)
    ok (out ++ in')

  module _ (to_id : Id128) where
    -- A new neighbor ends the search if it is the target, and is queued otherwise.
    pub path_edge : Item → Search → Edge → Turn Search (List Edge)
    path_edge current s edge =
        let id = neighbor edge current.entry_id in
        let path = current.edge_path ++ edge ∷ [] in
        if member id s.visited
        then next s
        else if id == to_id
        then stop path
        else next (record s {
          visited = id ∷ s.visited;
          queue =
              s.queue ++ record { entry_id = id; edge_path = path; depth = suc current.depth } ∷ [];
        })

    pub path_edges : Item → Search → List Edge → Turn Search (List Edge)
    path_edges current s [] = next s
    path_edges current s (edge ∷ rest) = elim (path_edge current s edge) [
      | next s' ↦ path_edges current s' rest
      | stop path ↦ stop path
    ]

    pub path_turn : ℕ → Item → Search → Result (Turn Search (List Edge))
    path_turn max_depth current s =
        if leb max_depth current.depth
        then ok (next s)
        else do edges ← all_edges_at current.entry_id; ok (path_edges current s edges)

  pub start_path : Id128 → Search
  start_path from_id = record {
    visited = from_id ∷ [];
    queue = record { entry_id = from_id; edge_path = []; depth = 0 } ∷ [];
  }

  -- A path found is turned into results; no path gives no results.
  pub path_results : Id128 → Turn Search (List Edge) → Run (List QueryResult)
  path_results from_id (next s) = returned []
  path_results from_id (stop path) = lift (build_path_results from_id path)

  pub find_path : Id128 → Id128 → ℤ → ℕ → Run (List QueryResult)
  find_path from_id to_id max_depth fuel =
      Bfs.◌>>=◌
        (lift (fail_if (is_zero from_id || is_zero to_id) (errorf "from and to IDs are required")))
        λ _.
          Bfs.◌>>=◌ (loop pop (path_turn to_id (or_default max_depth 5)) fuel (start_path from_id))
            (path_results from_id)
