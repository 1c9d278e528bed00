-- ===== src/Query/Expand.antt =====
-- expandFromEntry of query/hybrid.go: breadth-first expansion from one result, with scores.
use known.Prelude.{
  ℕ, suc, Option, none, some, List, [], ◌∷◌, ◌++◌, leb, member, if◌then◌else◌, is_not_found, Result,
  ok, err, wrap, ◌>>=◌,
}
use known.Prelude.Float.{Float64, FloatOps}
use known.Model.Types.{Id128}
use known.Model.Edge.{Edge, EdgeType, effective_weight}
use known.Model.Entry.{Entry}
use known.Storage.{EdgeFilter}
use known.Query.Types.{
  QueryResult, hit, expansion, GraphDirection, follows_out, follows_in, Engine, neighbor,
  is_excluded_type,
}
use known.Query.Bfs.{Run, Turn, next, loop}

-- bfsItem
pub record Item : Type 0 where
  pub entry_id : Id128
  pub depth : ℕ
  pub parent_score : Float64

pub record Search : Type 0 where
  pub seen : List Id128
  pub results : List QueryResult
  pub queue : List Item

take_first : List Item → Search → Option (Item × Search)
take_first [] s = none
take_first (i ∷ q) s = some (i, record s { queue = q })

pub pop : Search → Option (Item × Search)
unfolding take_first
pop s = take_first s.queue s

module _ (fl : FloatOps) where
  -- parentScore * edge.EffectiveWeight() * expansionDepthDecay
  pub neighbor_score : Item → Edge → Float64
  neighbor_score current edge =
      fl.mul (fl.mul current.parent_score (effective_weight fl edge)) (fl.decimal 8 10)

  pub reach_neighbor : Item → Edge → Id128 → Search → Result Entry → Result Search
  reach_neighbor current edge id s (ok entry) =
      let score = neighbor_score current edge in
      ok (record s {
        results =
            s.results
            ++ record (hit entry expansion (suc current.depth)) {
              score = score;
              edge_path = edge ∷ [];
            }
              ∷ [];
        queue =
            s.queue
            ++ record { entry_id = id; depth = suc current.depth; parent_score = score } ∷ [];
      })
  reach_neighbor current edge id s (err e) =
      if is_not_found e then ok s else err (wrap "get entry" e)

  module _ {S : Type 0} (engine : Engine S) (db : S) where
    pub edges_at : GraphDirection → EdgeFilter → Id128 → Result (List Edge)
    edges_at direction filter id = do
      out ← if follows_out direction then engine.edges.edges_from db id filter else ok []
      in' ← if follows_in direction then engine.edges.edges_to db id filter else ok []
      ok (out ++ in')

    module _ (max_depth : ℕ) (direction : GraphDirection) (filter : EdgeFilter)
        (types : List EdgeType) where
      pub visit_edge : Item → Search → Edge → Result Search
      visit_edge current s edge =
          let id = neighbor edge current.entry_id in
          if is_excluded_type types edge.type
          then ok s
          else if member id s.seen
          then ok s
          else reach_neighbor current edge id (record s { seen = id ∷ s.seen })
              (engine.entries.get db id)

      pub visit_edges : Item → Search → List Edge → Result Search
      visit_edges current s [] = ok s
      visit_edges current s (edge ∷ rest) = do
        s' ← visit_edge current s edge
        visit_edges current s' rest

      pub turn : Item → Search → Result (Turn Search ⊥)
      turn current s = if leb max_depth current.depth then ok (next s) else do
        edges ← edges_at direction filter current.entry_id
        s' ← visit_edges current s edges
        ok (next s')

      pub start_search : Id128 → Float64 → List Id128 → Search
      start_search start_id start_score seen = record {
        seen = seen;
        results = [];
        queue = record { entry_id = start_id; depth = 0; parent_score = start_score } ∷ [];
      }

      -- The search at its end: its results, and the ids that are now seen.
      unfoldable pub expand_from_entry : Id128 → Float64 → List Id128 → ℕ → Run (Turn Search ⊥)
      expand_from_entry start_id start_score seen fuel =
          loop pop turn fuel (start_search start_id start_score seen)
