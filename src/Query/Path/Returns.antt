-- ===== src/Query/Path/Returns.antt =====
-- FindPath of query/graph.go: the fuel of its loop, by the items in the queue and the entries not
-- yet seen.
use mathlib.Core.Path.{◌≡◌}
use known.Prelude.{
  ℕ, suc, ◌+◌, ◌≤◌, ◌<◌, ◌||◌, true, false, refl, ap, inl, inr, some, List, [], ◌∷◌, ◌++◌, arith,
  All, length, length-append, leb, ◌==◌, member, Bool-cases, ok,
}
use known.Prelude.Sets.{unseen, unseen-cons-lt, unseen-le-length}
use known.Prelude.Int.{ℤ, or_default}
use known.Model.Types.{Id128, is_zero}
use known.Model.Edge.{Edge}
use known.Query.Types.{QueryResult, hit, traversal, Engine, neighbor, no_filter}
use known.Query.Readable.{IsReadable}
use known.Query.Bfs.{returned, Turn, next, stop}
use known.Query.Bfs.Rules.{Falls, loop_returns}
use known.Query.Path.{
  Item, Search, pop, take_first, Built, target, build_hop, build_hops, build_path_results,
  all_edges_at, path_edge, path_edges, path_turn, start_path, path_results, find_path, add_hop,
}

module _ {S : Type 0} (engine : Engine S) (db : S) (ids : List Id128)
    (readable : IsReadable engine db ids)
    -- The ends of the stored edges are in the finite list.
    (closed : (id : Id128) (es : List Edge)
      → all_edges_at engine db id ≡ ok es
      → All (λ edge. member (neighbor edge id) ids ≡ true) es)
    (to_id : Id128) where
  work : Search → ℕ
  work s = unseen s.visited ids + length s.queue

  -- The measure does not grow, where the search goes on.
  Bounded : Search → Turn Search (List Edge) → Type 0
  Bounded s (next u) = work u ≤ work s
  Bounded s (stop p) = Unit

  path_edge-Bounded :
      (current : Item) (s : Search) (edge : Edge)
      → member (neighbor edge current.entry_id) ids ≡ true
      → Bounded s (path_edge engine db to_id current s edge)
  unfolding path_edge Bounded work
  path_edge-Bounded current s edge k =
      let id = neighbor edge current.entry_id in
      let item : Item = record {
        entry_id = id;
        edge_path = current.edge_path ++ edge ∷ [];
        depth = suc current.depth;
      } in
      elim (Bool-cases (member id s.visited)) [
        | inl old ↦ rw old (omega arith)
        | inr new ↦ elim (Bool-cases (id == to_id)) [
          | inl at ↦ rw (new, at) tt
          | inr on ↦
              rw (new, on)
                (omega (
                  arith,
                  length-append {0} s.queue (item ∷ []),
                  unseen-cons-lt id s.visited ids k new,
                ))
        ]
      ]

  path_edges-Bounded :
      (current : Item) (es : List Edge) (s : Search)
      → All (λ edge. member (neighbor edge current.entry_id) ids ≡ true) es
      → Bounded s (path_edges engine db to_id current s es)
  unfolding path_edges Bounded work
  path_edges-Bounded current [] s k = omega arith
  path_edges-Bounded current (edge ∷ rest) s k =
      go (path_edge engine db to_id current s edge) (path_edge-Bounded current s edge k.0)
        (λ u. path_edges-Bounded current rest u k.1)
    where
      trans :
          (u : Search) (t : Turn Search (List Edge)) → work u ≤ work s → Bounded u t → Bounded s t
      trans u (next v) l m = omega arith
      trans u (stop p) l m = tt

      go :
          (t : Turn Search (List Edge))
          → Bounded s t
          → ((u : Search) → Bounded u (path_edges engine db to_id current u rest))
          → Bounded s
              (elim t [ next u ↦ path_edges engine db to_id current u rest | stop p ↦ stop p ])
      go (next u) l f = trans u (path_edges engine db to_id current u rest) l (f u)
      go (stop p) l f = tt

  all_edges_at_returns : (id : Id128) → (es : List Edge) × (all_edges_at engine db id ≡ ok es)
  unfolding all_edges_at
  all_edges_at_returns id =
      let (out, e) = readable.from id no_filter in
      let (in', f) = readable.to id no_filter in (out ++ in', rw (e, f))

  path_turn_returns :
      (max_depth : ℕ) (current : Item) (s : Search)
      → (t : Turn Search (List Edge)) × (path_turn engine db to_id max_depth current s ≡ ok t)
        × Bounded s t
  unfolding path_turn Bounded work
  path_turn_returns max_depth current s = elim (Bool-cases (leb max_depth current.depth)) [
    | inl deep ↦ (next s, rw deep, omega arith)
    | inr more ↦
        let (es, e) = all_edges_at_returns current.entry_id in
        (
          path_edges engine db to_id current s es,
          rw (more, e),
          path_edges-Bounded current es s (closed current.entry_id es e),
        )
  ]

  take_first-work :
      (q : List Item) (s s' : Search) (i : Item)
      → s.queue ≡ q
      → take_first q s ≡ some (i, s')
      → work s' < work s
  unfolding take_first work
  take_first-work [] s s' i e h = cc h
  take_first-work (j ∷ q) s s' i e h =
      let same : record s { queue = q } ≡ s' = cc h in
      let a = ap (λ (x : Search). unseen x.visited ids) same in
      let b = ap (λ (x : Search). length x.queue) same in
      let c = ap (λ (x : List Item). length x) e in omega arith

  round-Falls :
      (max_depth : ℕ) (s s' : Search) (i : Item)
      → pop s ≡ some (i, s')
      → Unit {0}
      → (t : Turn Search (List Edge)) × (path_turn engine db to_id max_depth i s' ≡ ok t)
        × Falls pop (path_turn engine db to_id max_depth) (λ _. Unit) work s t
  unfolding pop Bounded
  round-Falls max_depth s s' i p h =
      let (t, e, b) = path_turn_returns max_depth i s' in
      (t, e, falls t b (take_first-work s.queue s s' i refl p))
    where
      falls :
          (t : Turn Search (List Edge))
          → Bounded s' t
          → work s' < work s
          → Falls pop (path_turn engine db to_id max_depth) (λ _. Unit) work s t
      falls (next u) b l = (tt, omega arith)
      falls (stop q) b l = tt

  build_hop_returns :
      (path : List Edge) (b : Built) (edge : Edge)
      → (b' : Built) × (build_hop engine db path b edge ≡ ok b')
  unfolding build_hop add_hop
  build_hop_returns path b edge = elim (Bool-cases (member (target b.seen edge) b.seen)) [
    | inl old ↦ (b, rw old)
    | inr new ↦ elim (readable.entries (target b.seen edge)) [
      | inl (entry, g, _) ↦ (
        record {
          seen = target b.seen edge ∷ b.seen;
          results =
              b.results ++ record (hit entry traversal (length path)) { edge_path = path } ∷ [];
        },
        rw (new, g),
      )
      | inr (e, g, n) ↦ (record b { seen = target b.seen edge ∷ b.seen }, rw (new, g, n, add_hop))
    ]
  ]

  build_hops_returns :
      (before : List Edge) (b : Built) (es : List Edge)
      → (b' : Built) × (build_hops engine db before b es ≡ ok b')
  unfolding build_hops
  build_hops_returns before b [] = (b, refl)
  build_hops_returns before b (edge ∷ rest) =
      let (c, e) = build_hop_returns (before ++ edge ∷ []) b edge in
      let (d, f) = build_hops_returns (before ++ edge ∷ []) c rest in (d, rw (e, f))

  path_results_returns :
      (from_id : Id128) (t : Turn Search (List Edge))
      → (rs : List QueryResult) × (path_results engine db from_id t ≡ returned rs)
  unfolding path_results build_path_results
  path_results_returns from_id (next s) = ([], refl)
  path_results_returns from_id (stop p) =
      let (b, e) = build_hops_returns [] (record { seen = from_id ∷ []; results = [] }) p in
      (b.results, rw e)

  -- On a store whose reads do not fail, with a finite list that holds the ids of all entries and, for
  -- every id, the other ends of all edges read at it: a search for a path between two ids that are not
  -- zero returns within two more rounds than there are ids in the list.
  pub find_path_returns :
      (from_id : Id128) (max_depth : ℤ) (fuel : ℕ)
      → (is_zero from_id || is_zero to_id) ≡ false
      → length ids + 1 < fuel
      → (rs : List QueryResult) × (find_path engine db from_id to_id max_depth fuel ≡ returned rs)
  unfolding find_path start_path work
  find_path_returns from_id max_depth fuel z enough =
      let (t, l) =
        loop_returns pop (path_turn engine db to_id (or_default max_depth 5)) (λ _. Unit) work
          (round-Falls (or_default max_depth 5)) fuel (start_path engine db from_id) tt
          (omega (arith, unseen-le-length (from_id ∷ []) ids)) in
      let (rs, e) = path_results_returns from_id t in (rs, rw (z, l) e)
