-- ===== src/Query/Graph/Returns.antt =====
-- Traverse of query/graph.go: the fuel of its loop, by the items in the queue and the entries not
-- yet seen.
use mathlib.Core.Path.{◌≡◌}
use known.Prelude.{
  ℕ, ◌+◌, ◌≤◌, ◌<◌, false, refl, ap, inl, inr, List, [], ◌∷◌, ◌++◌, arith, length, length-append,
  leb, member, Bool-cases, some, Result, ok,
}
use known.Prelude.Sets.{unseen, unseen-cons-le, unseen-cons-lt, unseen-le-length}
use known.Model.Types.{Id128, is_zero}
use known.Model.Edge.{Edge}
use known.Query.Types.{
  QueryResult, Engine, GraphOptions, GraphDirection, outgoing, incoming, both, neighbor,
  is_excluded_type, filter_of,
}
use known.Query.Bfs.{returned, Turn, next, stop, loop}
use known.Query.Bfs.Rules.{loop_returns, Falls}
use known.Query.Enrich.Keeps.{enrich_conflicts_returns}
use known.Query.Readable.{IsReadable}
use known.Storage.{EdgeFilter}
use known.Query.Graph.{
  Item, Search, pop, turn, reach_neighbor, found_item, visit_edge, visit_edges, edges_at,
  start_results, start_search, finish, traverse,
}
use known.Prelude.Int.{or_default}
use known.Query.Graph.Visits.{reported, pop-Popped}

module _ {S : Type 0} (engine : Engine S) (db : S) (ids : List Id128)
    (readable : IsReadable engine db ids) (opts : GraphOptions) where
  -- The items in the queue and the entries not yet seen.
  abbrev work : Search → ℕ
  work s = unseen s.visited ids + length s.queue

  abbrev Continues : (Search → Result Search) → Search → Type 0
  Continues f s = (u : Search) × (f s ≡ ok u) × (work u ≤ work s)

  visit_edge_returns :
      (current : Item) (s : Search) (edge : Edge)
      → Continues (λ x. visit_edge engine db opts current x edge) s
  unfolding visit_edge reach_neighbor
  visit_edge_returns current s edge =
      let id = neighbor edge current.entry_id in
      elim (Bool-cases (is_excluded_type opts.edge_types edge.type)) [
        | inl x ↦ (s, rw x, omega arith)
        | inr x ↦ elim (Bool-cases (member id s.visited)) [
          | inl m ↦ (s, rw (x, m), omega arith)
          | inr m ↦ elim (readable.entries id) [
            | inl (entry, g, k) ↦ (
              reported engine db opts current edge id entry s,
              rw (x, m, g),
              omega (
                arith,
                length-append {0} s.queue (found_item current edge id ∷ []),
                unseen-cons-lt id s.visited ids k m,
              ),
            )
            | inr (e, g, n) ↦ (
              record s { visited = id ∷ s.visited },
              rw (x, m, g, n, reach_neighbor),
              omega (arith, unseen-cons-le id s.visited ids),
            )
          ]
        ]
      ]

  visit_edges_returns :
      (current : Item) (es : List Edge) (s : Search)
      → Continues (λ x. visit_edges engine db opts current x es) s
  unfolding visit_edges
  visit_edges_returns current [] s = (s, refl, omega arith)
  visit_edges_returns current (edge ∷ rest) s =
      let (u, e, l) = visit_edge_returns current s edge in
      let (v, f, m) = visit_edges_returns current rest u in (v, rw (e, f), omega arith)

  pub edges_at_returns :
      (direction : GraphDirection) (filter : EdgeFilter) (id : Id128)
      → (es : List Edge) × (edges_at engine db direction filter id ≡ ok es)
  unfolding edges_at
  edges_at_returns outgoing filter id = let (out, e) = readable.from id filter in (out ++ [], rw e)
  edges_at_returns incoming filter id = let (in', f) = readable.to id filter in (in', rw f)
  edges_at_returns both filter id =
      let (out, e) = readable.from id filter in
      let (in', f) = readable.to id filter in (out ++ in', rw (e, f))

  turn_returns :
      (current : Item) (s : Search)
      → (u : Search) × (turn engine db opts current s ≡ ok (next u)) × (work u ≤ work s)
  unfolding turn
  turn_returns current s = elim (Bool-cases (leb (or_default opts.max_depth 1) current.depth)) [
    | inl deep ↦ (s, rw deep, omega arith)
    | inr more ↦
        let (es, e) =
          edges_at_returns opts.direction (filter_of opts.edge_types) current.entry_id in
        let (u, f, l) = visit_edges_returns current es s in (u, rw (more, e, f), l)
  ]

  round-Returns :
      (s s' : Search) (i : Item)
      → pop s ≡ some (i, s')
      → Unit {0}
      → (t : Turn Search ⊥) × (turn engine db opts i s' ≡ ok t)
        × Falls pop (turn engine db opts) (λ _. Unit) work s t
  round-Returns s s' i p h =
      let popped = pop-Popped s s' i p in
      let (u, e, l) = turn_returns i s' in
      let q = ap (λ (x : List Item). length x) popped.queue in
      let v = ap (λ (x : List Id128). unseen x ids) popped.visited in (next u, e, (tt, omega arith))

  finish_returns :
      (fuel : ℕ) (first : List QueryResult) (t : Turn Search ⊥)
      → is_zero opts.start_id ≡ false
      → start_results engine db opts ≡ ok first
      → loop pop (turn engine db opts) fuel (start_search engine db opts first) ≡ returned t
      → (rs : List QueryResult) × (traverse engine db opts fuel ≡ returned rs)
  unfolding traverse finish
  finish_returns fuel first (stop r) z e l = absurd r
  finish_returns fuel first (next s) z e l =
      let (rs, f) = enrich_conflicts_returns engine.edges db readable.conflicts s.results in
      (rs, rw (z, e, l, f))

  -- On a store of finitely many entries whose reads do not fail, a traversal from an id that is not
  -- zero, and that has an entry if the start is asked for, returns within two more rounds than there
  -- are entries.
  pub traverse_returns :
      (fuel : ℕ)
      → is_zero opts.start_id ≡ false
      → ((first : List QueryResult) × (start_results engine db opts ≡ ok first))
      → length ids + 1 < fuel
      → (rs : List QueryResult) × (traverse engine db opts fuel ≡ returned rs)
  unfolding start_search
  traverse_returns fuel z (first, e) enough =
      let (t, l) =
        loop_returns pop (turn engine db opts) (λ _. Unit) work round-Returns fuel
          (start_search engine db opts first) tt
          (omega (arith, unseen-le-length (opts.start_id ∷ []) ids)) in
      finish_returns fuel first t z e l
