-- ===== src/Query/Graph/Complete.antt =====
-- Traverse finds every entry at the end of a walk within the depth, at no greater depth.
use mathlib.Core.Path.{◌≡◌, subst₂}
use mathlib.Core.List.{Memᴰ}
use mathlib.Core.List.Memᴰ
use known.Prelude.{
  ℕ, suc, ◌≤◌, ◌<◌, true, false, refl, sym, subst, ap, ◌∙◌, ◌⊎◌, inl, inr, List, [], ◌∷◌, arith,
  All, All-mono, length, length-append, member, some, ok, ok-injective, Result-cases,
}
use known.Model.Types.{Id128}
use known.Model.Edge.{Edge}
use known.Model.Entry.{Entry}
use known.Query.Types.{Engine, GraphOptions, neighbor, is_excluded_type}
use known.Query.Bfs.{Turn, next, stop}
use known.Query.Bfs.Rules.{After}
use known.Query.Graph.{Item, Search, pop, turn, visit_edge, visit_edges}
use known.Query.Graph.Visits.{Popped, pop-Popped, visit_edge-Visit}
use known.Query.Graph.Walks.{max, Stored, Walk, here, hop, turn-eq-ok}
use known.Query.Graph.Known.{
  IsLayered, Known, at_start, reached, Waits, Covers, Scanning, Extends, Extends-refl,
  Extends-trans, Visit-Scanning,
}

near_later : (i j : Item) (k : ℕ) → i.depth ≤ j.depth → k ≤ suc i.depth → k ≤ suc j.depth
near_later i j k l m = omega arith

module _ {S : Type 0} (engine : Engine S) (db : S)
    (named : (id : Id128) (entry : Entry) → engine.entries.get db id ≡ ok entry → entry.id ≡ id)
    (opts : GraphOptions) where
  abbrev pub K : Search → Id128 → ℕ → Type 0
  K s id k = Known engine db named opts s id k

  abbrev pub W : Search → Id128 → ℕ → Type 0
  W s id k = Waits engine db named opts s id k

  visit_edges-Covers :
      (current : Item) (es : List Edge) (s u : Search)
      → visit_edges engine db opts current s es ≡ ok u
      → Scanning engine db named opts current s
      → Scanning engine db named opts current u
        × Extends engine db named opts s u
        × ((edge : Edge) → Memᴰ edge es → Covers engine db named opts u current.entry_id edge)
  unfolding visit_edges
  visit_edges-Covers current [] s u v h =
      subst
        (λ (x : Search).
          Scanning engine db named opts current x
          × Extends engine db named opts s x
          × ((edge : Edge) → Memᴰ edge [] → Covers engine db named opts x current.entry_id edge))
        (ok-injective v) (h, Extends-refl engine db named opts s, λ edge m. absurd (Memᴰ.not-nil m))
  visit_edges-Covers current (edge ∷ rest) s u v h =
      elim (Result-cases (visit_edge engine db opts current s edge)) [
        | inl (t, e) ↦
            let (ht, st, ct) =
              Visit-Scanning engine db named opts current s edge t h
                (visit_edge-Visit engine db opts current s edge t e) in
            let (hu, tu, cu) = visit_edges-Covers current rest t u (rw (e, visit_edges) at v) ht in
            (
              hu,
              Extends-trans engine db named opts s t u st tu,
              λ x m allowed entry g. elim (Memᴰ.cases_cons m) [
                | inl same ↦
                    let (j, known) = ct (rw same at allowed) entry (rw same at g) in
                    (j, tu.grows (neighbor x current.entry_id) j (rw same known))
                | inr later ↦ cu x later allowed entry g
              ],
            )
        | inr (x, e) ↦ cc (rw (e, visit_edges) at v)
      ]

  -- Every stored edge at an entry leads to known entries, one level deeper at most.
  abbrev pub Closed : Search → Id128 → ℕ → Type 0
  Closed s id k =
      (es : List Edge)
      → Stored engine db opts id es
      → (edge : Edge) → Memᴰ edge es
      → is_excluded_type opts.edge_types edge.type ≡ false
      → (entry : Entry) → engine.entries.get db (neighbor edge id) ≡ ok entry
      → (j : ℕ) × K s (neighbor edge id) j × (j ≤ suc k)

  -- Between the rounds: an item's depth is one below every known depth at most, the queue is in the
  -- order of depths, and what does not wait and is not at the bound is closed.
  pub record IsSearched (s : Search) : Type 0 where
    pub near : All (λ (i : Item). (id : Id128) (k : ℕ) → K s id k → k ≤ suc i.depth) s.queue
    pub layered : IsLayered s.queue
    pub items : (i : Item) → Memᴰ i s.queue → K s i.entry_id i.depth
    pub seen :
        (id : Id128) (entry : Entry)
        → member id s.visited ≡ true
        → engine.entries.get db id ≡ ok entry
        → (k : ℕ) × K s id k
    pub closed : (id : Id128) (k : ℕ) → K s id k → k < max engine db opts → W s id k ⊎ Closed s id k

  -- Taking an item off the queue.
  same_results-Known :
      (s s' : Search) (id : Id128) (k : ℕ) → s'.results ≡ s.results → K s id k → K s' id k
  same_results-Known s s' id k e (at_start a b) = at_start a b
  same_results-Known s s' id k e (reached r m a b) = reached r (rw e m) a b

  pop-Scanning :
      (current : Item) (s s' : Search)
      → Popped current s s'
      → IsSearched s
      → Scanning engine db named opts current s'
  pop-Scanning current s s' p h =
      let near =
        subst (All (λ (i : Item). (id : Id128) (k : ℕ) → K s id k → k ≤ suc i.depth)) p.queue
          h.near in
      let layered = subst IsLayered p.queue h.layered in
      record {
        near = λ id k known. near.0 id k (same_results-Known s' s id k (sym p.results) known);
        layered = layered.1;
        later = layered.0;
        items = λ i m.
            same_results-Known s s' i.entry_id i.depth p.results
              (h.items i (rw p.queue (Memᴰ.tail m)));
        seen = λ id entry m g.
            let (k, known) = h.seen id entry (rw p.visited at m) g in
            (k, same_results-Known s s' id k p.results known);
      }

  Closed-grows :
      (s s' : Search) (id : Id128) (k : ℕ)
      → ((i : Id128) (j : ℕ) → K s i j → K s' i j)
      → Closed s id k
      → Closed s' id k
  Closed-grows s s' id k grow c es st edge m x entry g =
      let (j, known, l) = c es st edge m x entry g in (j, grow (neighbor edge id) j known, l)

  -- What waited before the round is the item taken, or still waits.
  pop-Waits :
      (current : Item) (s s' : Search) (id : Id128) (k : ℕ)
      → Popped current s s'
      → W s id k
      → ((id ≡ current.entry_id) × (k ≡ current.depth)) ⊎ W s' id k
  pop-Waits current s s' id k p (i, m, e, d) = elim (Memᴰ.cases_cons (rw p.queue at m)) [
    | inl same ↦
        inl (sym e ∙ ap (λ (x : Item). x.entry_id) same, sym d ∙ ap (λ (x : Item). x.depth) same)
    | inr rest ↦ inr (i, rest, e, d)
  ]

  deep-IsSearched :
      (current : Item) (s s' : Search)
      → Popped current s s'
      → IsSearched s
      → max engine db opts ≤ current.depth
      → IsSearched s'
  deep-IsSearched current s s' p h deep =
      let scan = pop-Scanning current s s' p h in
      let near =
        subst (All (λ (i : Item). (id : Id128) (k : ℕ) → K s id k → k ≤ suc i.depth)) p.queue
          h.near in
      let layered = subst IsLayered p.queue h.layered in
      let back = λ (id : Id128) (k : ℕ) (known : K s' id k).
        same_results-Known s' s id k (sym p.results) known in
      record {
        near = All-mono s'.queue (λ i f id k known. f id k (back id k known)) near.1;
        layered = layered.1;
        items = scan.items;
        seen = scan.seen;
        closed = λ id k known lt. elim (h.closed id k (back id k known) lt) [
          | inl w ↦ elim (pop-Waits current s s' id k p w) [
            | inl (_, d) ↦ absurd (omega arith)
            | inr rest ↦ inl rest
          ]
          | inr c ↦ inr (Closed-grows s s' id k (λ i j. same_results-Known s s' i j p.results) c)
        ];
      }

  scan-IsSearched :
      (current : Item) (s s' u : Search) (es : List Edge)
      → Popped current s s'
      → IsSearched s
      → Stored engine db opts current.entry_id es
      → visit_edges engine db opts current s' es ≡ ok u
      → IsSearched u
  scan-IsSearched current s s' u es p h st v =
      let (scan, ext, covers) =
        visit_edges-Covers current es s' u v (pop-Scanning current s s' p h) in
      let grow = λ (i : Id128) (j : ℕ) (known : K s i j).
        ext.grows i j (same_results-Known s s' i j p.results known) in
      let now_closed = λ (id : Id128) (k : ℕ) (e : id ≡ current.entry_id) (d : k ≡ current.depth).
        subst₂ (λ (i : Id128) (j : ℕ). Closed u i j) (sym e) (sym d)
          (λ fs stored edge m x entry g.
            let (j, known) = covers edge (rw (ok-injective (sym stored ∙ st)) at m) x entry g in
            (j, known, scan.near (neighbor edge current.entry_id) j known)) in
      record {
        near =
            All-mono u.queue (λ i l id k known. near_later current i k l (scan.near id k known))
              scan.later;
        layered = scan.layered;
        items = scan.items;
        seen = scan.seen;
        closed = λ id k known lt. elim (ext.news id k known) [
          | inr w ↦ inl w
          | inl old ↦ elim (h.closed id k (same_results-Known s' s id k (sym p.results) old) lt) [
            | inl w ↦ elim (pop-Waits current s s' id k p w) [
              | inl (e, d) ↦ inr (now_closed id k e d)
              | inr rest ↦ inl (ext.waiting id k rest)
            ]
            | inr c ↦ inr (Closed-grows s u id k grow c)
          ]
        ];
      }

  pub round-IsSearched :
      (a b : Search) (i : Item) (t : Turn Search ⊥)
      → pop a ≡ some (i, b)
      → IsSearched a
      → turn engine db opts i b ≡ ok t
      → After pop (turn engine db opts) IsSearched (λ _. Unit) t
  round-IsSearched a b i (stop r) p h e = absurd r
  round-IsSearched a b i (next u) p h e = elim (turn-eq-ok engine db opts i b u e) [
    | inl (same, deep) ↦
        subst IsSearched (sym same) (deep-IsSearched i a b (pop-Popped a b i p) h deep)
    | inr (es, _, st, v) ↦ scan-IsSearched i a b u es (pop-Popped a b i p) h st v
  ]

  -- With an empty queue each walk within the bound ends at a known entry.
  pub Walk-Known :
      (s : Search)
      → IsSearched s
      → s.queue ≡ []
      → {p : List Edge} {n : Id128} → Walk engine db opts p n
      → length p ≤ max engine db opts
      → (k : ℕ) × K s n k × (k ≤ length p)
  Walk-Known s h empty (here e f) l = (0, at_start f refl, omega arith)
  Walk-Known s h empty (hop {path} {id} edge es entry w st m x g e f) l =
      let size = ap (λ (y : List Edge). length y) e in
      let (k, known, le) =
        Walk-Known s h empty w (omega (arith, length-append {0} path (edge ∷ []))) in
      elim (h.closed id k known (omega (arith, length-append {0} path (edge ∷ [])))) [
        | inl (i, waits, _, _) ↦ absurd (Memᴰ.not-nil (rw empty at waits))
        | inr c ↦
            let (j, there, lj) = c es st edge m x entry g in
            (j, rw f there, omega (arith, length-append {0} path (edge ∷ [])))
      ]
