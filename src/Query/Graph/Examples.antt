-- ===== src/Query/Graph/Examples.antt =====
-- Traversals of the chain of entries 1 → 2 → 3.
use mathlib.Core.Path.{◌≡◌}
use mathlib.Core.List.{Memᴰ}
use known.Prelude.{◌≤◌, refl, ◌⊎◌, List, [], ◌∷◌, arith, All, member, true, false, ok}
use known.Prelude.Sets.{IsDistinct}
use known.Model.Types.{Id128, is_zero}
use known.Prelude.Int.{pos}
use known.Query.Types.{QueryResult, GraphOptions, outgoing, traversal, hit, neighbor}
use known.Query.Bfs.{returned, loop}
use known.Query.Enrich.{enrich_conflicts}
use known.Query.Graph.{
  traverse, pop, turn, visit_edges, visit_edge, reach_neighbor, start_results, start_search, finish,
  edges_at, start_results,
}
use known.Query.Graph.Walks.{Walk, here, hop, IsReached}
use known.Query.Graph.Sound.{traverse-IsReached}
use known.Query.Graph.Returns.{traverse_returns}
use known.Query.Graph.Distinct.{traverse-IsDistinct, ids_of}
use known.Query.Graph.Finds.{traverse_finds}
use known.Fixture.Store.{engine, entry_of, one_two, two_three, get_entry-id, engine-IsReadable}

abbrev opts : GraphOptions
opts = record {
  start_id = 1;
  direction = outgoing;
  max_depth = pos 2;
  edge_types = [];
  include_start = true;
}

abbrev found_results : List QueryResult
found_results =
    hit (entry_of 1) traversal 0
    ∷ record (hit (entry_of 2) traversal 1) { edge_path = one_two ∷ [] }
    ∷ record (hit (entry_of 3) traversal 2) { edge_path = one_two ∷ two_three ∷ [] }
    ∷ []

traverse_run : traverse engine tt opts 9 ≡ returned found_results
unfolding traverse loop pop turn visit_edges visit_edge reach_neighbor start_results start_search
    finish edges_at enrich_conflicts member neighbor is_zero
traverse_run = refl

traverse-IsReached_example : All (IsReached engine tt opts) found_results
traverse-IsReached_example = traverse-IsReached engine tt opts 9 found_results traverse_run

traverse-IsDistinct_example : IsDistinct (ids_of found_results)
traverse-IsDistinct_example =
    traverse-IsDistinct engine tt (λ id entry h. get_entry-id id entry h) opts 9 found_results
      traverse_run

not_zero : is_zero 1 ≡ false
unfolding is_zero
not_zero = refl

starts : start_results engine tt opts ≡ ok (hit (entry_of 1) traversal 0 ∷ [])
unfolding start_results
starts = refl

traverse_returns_example : (rs : List QueryResult) × (traverse engine tt opts 9 ≡ returned rs)
traverse_returns_example =
    traverse_returns engine tt (1 ∷ 2 ∷ 3 ∷ []) engine-IsReadable opts 9 not_zero
      (hit (entry_of 1) traversal 0 ∷ [], starts) (omega arith)

two_hops : Walk engine tt opts (one_two ∷ two_three ∷ []) 3
unfolding edges_at neighbor member
two_hops =
    hop two_three (two_three ∷ []) (entry_of 3)
      (hop one_two (one_two ∷ []) (entry_of 2) (here refl refl) refl (Memᴰ.head refl) refl refl refl
        refl)
      refl (Memᴰ.head refl) refl refl refl refl

abbrev far : Id128
far = 3

traverse_finds_example :
    (far ≡ opts.start_id)
    ⊎ ((r : QueryResult) × Memᴰ r found_results × (r.entry.id ≡ far) × (r.depth ≤ 2))
traverse_finds_example =
    traverse_finds engine tt (λ id entry h. get_entry-id id entry h) opts 9 found_results
      (one_two ∷ two_three ∷ []) 3 traverse_run two_hops (omega arith)
