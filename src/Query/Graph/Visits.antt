-- ===== src/Query/Graph/Visits.antt =====
-- What one edge does to the search of Traverse, by cases.
use mathlib.Core.Path.{◌≡◌}
use mathlib.Core.List.{Memᴰ}
use known.Prelude.{
  true, false, refl, subst, ◌⊎◌, inl, inr, none, some, List, [], ◌∷◌, ◌++◌, arith, member,
  Bool-cases, Error, is_not_found, ok-injective, ok, err, Result-cases,
}
use known.Model.Types.{Id128}
use known.Model.Edge.{Edge}
use known.Model.Entry.{Entry}
use known.Query.Types.{Engine, GraphOptions, neighbor, is_excluded_type}
use known.Query.Graph.{
  Item, Search, pop, take_first, found, found_item, reach_neighbor, visit_edge, visit_edges,
}

-- Taking an item off the queue changes nothing else.
pub record Popped (i : Item) (s s' : Search) : Type 0 where
  pub queue : s.queue ≡ i ∷ s'.queue
  pub visited : s'.visited ≡ s.visited
  pub results : s'.results ≡ s.results

take_first-Popped :
    (q : List Item) (s s' : Search) (i : Item)
    → s.queue ≡ q
    → take_first q s ≡ some (i, s')
    → Popped i s s'
unfolding take_first
take_first-Popped [] s s' i e h = cc
take_first-Popped (j ∷ q) s s' i e h = ground arith

pub pop-Popped : (s s' : Search) (i : Item) → pop s ≡ some (i, s') → Popped i s s'
unfolding pop
pop-Popped s s' i h = take_first-Popped s.queue s s' i refl h

take_first-none : (q : List Item) (s : Search) → take_first q s ≡ none → q ≡ []
unfolding take_first
take_first-none [] s h = refl
take_first-none (i ∷ q) s h = cc

pub pop-none : (s : Search) → pop s ≡ none → s.queue ≡ []
unfolding pop
pop-none s h = take_first-none s.queue s h

module _ {S : Type 0} (engine : Engine S) (db : S) (opts : GraphOptions) where
  -- The state after a neighbor is marked, and after it is reported.
  abbrev pub marked : Id128 → Search → Search
  marked id s = record s { visited = id ∷ s.visited }

  abbrev pub reported : Item → Edge → Id128 → Entry → Search → Search
  reported current edge id entry s = record {
    visited = id ∷ s.visited;
    results = s.results ++ found current edge entry ∷ [];
    queue = s.queue ++ found_item current edge id ∷ [];
  }

  pub data Visit (current : Item) (s : Search) (edge : Edge) (s' : Search) : Type 0 where
    skipped :
        (is_excluded_type opts.edge_types edge.type ≡ true)
          ⊎ (member (neighbor edge current.entry_id) s.visited ≡ true)
        → s' ≡ s
        → Visit current s edge s'
    absent :
        (e : Error)
        → is_excluded_type opts.edge_types edge.type ≡ false
        → member (neighbor edge current.entry_id) s.visited ≡ false
        → engine.entries.get db (neighbor edge current.entry_id) ≡ err e
        → s' ≡ marked (neighbor edge current.entry_id) s
        → Visit current s edge s'
    fresh :
        (entry : Entry)
        → is_excluded_type opts.edge_types edge.type ≡ false
        → member (neighbor edge current.entry_id) s.visited ≡ false
        → engine.entries.get db (neighbor edge current.entry_id) ≡ ok entry
        → s' ≡ reported current edge (neighbor edge current.entry_id) entry s
        → Visit current s edge s'

  pub visit_edge-Visit :
      (current : Item) (s : Search) (edge : Edge) (s' : Search)
      → visit_edge engine db opts current s edge ≡ ok s'
      → Visit current s edge s'
  unfolding visit_edge reach_neighbor
  visit_edge-Visit current s edge s' h =
      elim (Bool-cases (is_excluded_type opts.edge_types edge.type)) [
        | inl x ↦ skipped (inl x) (cc (rw (x, visit_edge) at h))
        | inr x ↦ elim (Bool-cases (member (neighbor edge current.entry_id) s.visited)) [
          | inl m ↦ skipped (inr m) (cc (rw (x, m, visit_edge) at h))
          | inr m ↦ elim (Result-cases (engine.entries.get db (neighbor edge current.entry_id))) [
            | inl (entry, g) ↦ fresh entry x m g (cc (rw (x, m, g, visit_edge) at h))
            | inr (e, g) ↦ elim (Bool-cases (is_not_found e)) [
              | inl n ↦ absent e x m g (cc (rw (x, m, g, n, visit_edge, reach_neighbor) at h))
              | inr n ↦ cc (rw (x, m, g, n, visit_edge, reach_neighbor) at h)
            ]
          ]
        ]
      ]

  -- What every visit keeps, the scan of the edges keeps.
  pub visit_edges_rule :
      (P : Search → Type 0) (current : Item) (es : List Edge)
      → ((s : Search) (edge : Edge) (s' : Search)
          → Memᴰ edge es
          → P s
          → Visit current s edge s'
          → P s')
      → (s s' : Search) → visit_edges engine db opts current s es ≡ ok s'
      → P s
      → P s'
  unfolding visit_edges
  visit_edges_rule P current [] keep s s' h p = subst P (ok-injective h) p
  visit_edges_rule P current (edge ∷ rest) keep s s' h p =
      elim (Result-cases (visit_edge engine db opts current s edge)) [
        | inl (u, e) ↦
            visit_edges_rule P current rest (λ a b c m. keep a b c (Memᴰ.tail m)) u s'
              (rw (e, visit_edges) at h)
              (keep s edge u (Memᴰ.head refl) p (visit_edge-Visit current s edge u e))
        | inr (x, e) ↦ cc (rw (e, visit_edges) at h)
      ]
