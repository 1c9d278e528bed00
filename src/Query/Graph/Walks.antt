-- ===== src/Query/Graph/Walks.antt =====
-- The results of Traverse are the ends of walks along stored edges.
use mathlib.Core.Path.{◌≡◌}
use mathlib.Core.List.{Memᴰ}
use known.Prelude.{
  ℕ, suc, ◌≤◌, ◌<◌, false, refl, sym, subst, ◌⊎◌, inl, inr, List, [], ◌∷◌, ◌++◌, arith, All,
  All-append, length, length-append, leb, Bool-cases, ok, Result-cases,
}
use known.Prelude.Int.{or_default}
use known.Model.Types.{Id128}
use known.Model.Edge.{Edge}
use known.Model.Entry.{Entry}
use known.Query.Types.{
  QueryResult, traversal, Engine, GraphOptions, neighbor, filter_of, is_excluded_type,
}
use known.Query.Bfs.{Turn, next, stop}
use known.Query.Graph.{Item, Search, found, found_item, edges_at, visit_edges, turn}
use known.Query.Graph.Visits.{Visit, skipped, absent, fresh, visit_edges_rule}

module _ {S : Type 0} (engine : Engine S) (db : S) (opts : GraphOptions) where
  -- The bound on the depth.
  abbrev pub max : ℕ
  max = or_default opts.max_depth 1

  -- The edges that Traverse reads at an entry.
  abbrev pub Stored : Id128 → List Edge → Type 0
  Stored id es = edges_at engine db opts.direction (filter_of opts.edge_types) id ≡ ok es

  -- A walk from the start: each edge is stored at the entry that it leaves, of a type asked for, and
  -- leads to an entry of the store.
  pub data Walk : List Edge → Id128 → Type 0 where
    here : {p : List Edge} {n : Id128} → p ≡ [] → n ≡ opts.start_id → Walk p n
    hop :
        {p path : List Edge} {n id : Id128} (edge : Edge) (es : List Edge) (entry : Entry)
        → Walk path id
        → Stored id es
        → Memᴰ edge es
        → is_excluded_type opts.edge_types edge.type ≡ false
        → engine.entries.get db (neighbor edge id) ≡ ok entry
        → p ≡ path ++ edge ∷ []
        → n ≡ neighbor edge id
        → Walk p n

  pub record IsItem (i : Item) : Type 0 where
    pub walk : Walk i.edge_path i.entry_id
    pub depth : length i.edge_path ≡ i.depth
    pub bound : i.depth ≤ max

  -- A result is the entry at the end of a walk, with the walk's edges and length.
  pub record IsReached (r : QueryResult) : Type 0 where
    pub id : Id128
    pub walk : Walk r.edge_path id
    pub entry : engine.entries.get db id ≡ ok r.entry
    pub depth : length r.edge_path ≡ r.depth
    pub bound : r.depth ≤ max
    pub method : r.reach ≡ traversal

  pub record IsSound (s : Search) : Type 0 where
    pub items : All IsItem s.queue
    pub results : All IsReached s.results

  Visit-IsSound :
      (current : Item) (es : List Edge)
      → IsItem current
      → current.depth < max
      → Stored current.entry_id es
      → (s : Search) (edge : Edge) (s' : Search) → Memᴰ edge es
      → IsSound s
      → Visit engine db opts current s edge s'
      → IsSound s'
  unfolding found found_item
  Visit-IsSound current es c lt st s edge s' m h (skipped _ e) = subst IsSound (sym e) h
  Visit-IsSound current es c lt st s edge s' m h (absent _ _ _ _ e) =
      subst IsSound (sym e) (record { items = h.items; results = h.results })
  Visit-IsSound current es c lt st s edge s' m h (fresh entry x v g e) =
      let w = hop edge es entry c.walk st m x g refl refl in
      let d : length (current.edge_path ++ edge ∷ []) ≡ suc current.depth =
        omega (arith, c.depth, length-append {0} current.edge_path (edge ∷ [])) in
      subst IsSound (sym e) (record {
        items =
            All-append IsItem s.queue
              (found_item current edge (neighbor edge current.entry_id) ∷ []) h.items
              (record { walk = w; depth = d; bound = lt }, tt);
        results = All-append IsReached s.results (found current edge entry ∷ []) h.results (
          record {
            id = neighbor edge current.entry_id;
            walk = w;
            entry = g;
            depth = d;
            bound = lt;
            method = refl;
          },
          tt,
        );
      })

  -- A round either stops at the depth, or scans the stored edges of the item.
  pub turn-eq-ok :
      (current : Item) (s u : Search)
      → turn engine db opts current s ≡ ok (next u)
      → ((u ≡ s) × (max ≤ current.depth))
        ⊎ ((es : List Edge) × (current.depth < max)
            × Stored current.entry_id es
            × (visit_edges engine db opts current s es ≡ ok u))
  unfolding turn
  turn-eq-ok current s u h = elim (Bool-cases (leb max current.depth)) [
    | inl deep ↦ inl (cc (rw deep at h), ground arith)
    | inr more ↦
        elim (Result-cases
          (edges_at engine db opts.direction (filter_of opts.edge_types) current.entry_id)) [
            | inl (es, e) ↦ elim (Result-cases (visit_edges engine db opts current s es)) [
              | inl (u', f) ↦ inr (es, ground arith, e, cc (f, rw (more, e, f) at h))
              | inr (x, f) ↦ cc (rw (more, e, f) at h)
            ]
            | inr (x, e) ↦ cc (rw (more, e) at h)
          ]
  ]

  pub turn-IsSound :
      (current : Item) (s : Search) (t : Turn Search ⊥)
      → IsItem current
      → IsSound s
      → turn engine db opts current s ≡ ok t
      → (u : Search) × (t ≡ next u) × IsSound u
  turn-IsSound current s (stop r) c h e = absurd r
  turn-IsSound current s (next u) c h e = elim (turn-eq-ok current s u e) [
    | inl (same, _) ↦ (u, refl, subst IsSound (sym same) h)
    | inr (es, lt, st, v) ↦ (
      u,
      refl,
      visit_edges_rule engine db opts IsSound current es
          (λ a b d m p k. Visit-IsSound current es c lt st a b d m p k) s u v h,
    )
  ]
