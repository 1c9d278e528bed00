-- ===== src/Query/Graph/Distinct.antt =====
-- Traverse of query/graph.go: the ids of the results.
use mathlib.Core.Path.{◌≡◌}
use mathlib.Core.List.{Memᴰ, map-append}
use known.Prelude.{
  ℕ, true, false, refl, sym, subst, ◌∙◌, ap, inl, inr, some, List, [], ◌∷◌, ◌++◌, map, arith,
  member, Bool-cases, ok-injective, ok, Result-cases,
}
use known.Prelude.Sets.{IsDistinct, IsDistinct-concat, member-append}
use known.Model.Types.{Id128}
use known.Model.Edge.{Edge}
use known.Model.Entry.{Entry}
use known.Query.Types.{QueryResult, Engine, GraphOptions, neighbor}
use known.Query.Bfs.{returned, Turn, next, stop}
use known.Query.Bfs.Rules.{loop_rule, After}
use known.Query.Enrich.{set_conflicts}
use known.Query.Enrich.Keeps.{map-enrich_conflicts}
use known.Query.Graph.{Item, Search, pop, turn, found, start_results, start_search, traverse}
use known.Query.Graph.Visits.{pop-Popped, Visit, skipped, absent, fresh, visit_edges_rule}
use known.Query.Graph.Walks.{turn-eq-ok}
use known.Query.Graph.Sound.{traverse-stages}

abbrev pub ids_of : List QueryResult → List Id128
ids_of = map (λ (r : QueryResult). r.entry.id)

set_conflicts-id : (r : QueryResult) (cs : List Entry) → (set_conflicts r cs).entry.id ≡ r.entry.id
unfolding set_conflicts
set_conflicts-id r [] = refl
set_conflicts-id r (x ∷ cs) = refl

module _ {S : Type 0} (engine : Engine S) (db : S)
    (named : (id : Id128) (entry : Entry) → engine.entries.get db id ≡ ok entry → entry.id ≡ id)
    (opts : GraphOptions) where
  -- The reported ids are distinct, and visited.
  record IsFresh (s : Search) : Type 0 where
    distinct : IsDistinct (ids_of s.results)
    visited : (a : Id128) → member a (ids_of s.results) ≡ true → member a s.visited ≡ true

  Visit-IsFresh :
      (current : Item) (es : List Edge) (s : Search) (edge : Edge) (s' : Search)
      → Memᴰ edge es
      → IsFresh s
      → Visit engine db opts current s edge s'
      → IsFresh s'
  unfolding found member
  Visit-IsFresh current es s edge s' m h (skipped _ e) = subst IsFresh (sym e) h
  Visit-IsFresh current es s edge s' m h (absent _ _ _ _ e) =
      subst IsFresh (sym e)
        (record { distinct = h.distinct; visited = λ a k. ground (arith, h.visited a k) })
  Visit-IsFresh current es s edge s' m h (fresh entry x v g e) =
      let id = neighbor edge current.entry_id in
      let same : entry.id ≡ id = named id entry g in
      let ids : ids_of (s.results ++ found current edge entry ∷ []) ≡ ids_of s.results ++ id ∷ [] =
        map-append _ s.results (found current edge entry ∷ [])
        ∙ ap (λ (i : Id128). ids_of s.results ++ i ∷ []) same in
      let new : member id (ids_of s.results) ≡ false =
        elim (Bool-cases (member id (ids_of s.results))) [
          | inl old ↦ cc (v, h.visited id old)
          | inr new ↦ new
        ] in
      subst IsFresh (sym e) (record {
        distinct = rw ids (IsDistinct-concat (ids_of s.results) id h.distinct new);
        visited = λ a k.
            ground (arith, h.visited a, member-append a (ids_of s.results) (id ∷ []), ids, k);
      })

  start-IsFresh :
      (first : List QueryResult)
      → start_results engine db opts ≡ ok first
      → IsFresh (start_search engine db opts first)
  unfolding start_results start_search member
  start-IsFresh first h = elim (Bool-cases opts.include_start) [
    | inl on ↦ elim (Result-cases (engine.entries.get db opts.start_id)) [
      | inl (entry, g) ↦ rw (← ok-injective (rw (on, g) at h)) (record {
        distinct = (refl, tt);
        visited = λ a k. ground (arith, named opts.start_id entry g);
      })
      | inr (x, g) ↦ cc (rw (on, g) at h)
    ]
    | inr off ↦ rw (← ok-injective (rw off at h)) (record { distinct = tt; visited = λ a k. cc })
  ]

  turn-IsFresh :
      (current : Item) (s u : Search)
      → turn engine db opts current s ≡ ok (next u)
      → IsFresh s
      → IsFresh u
  turn-IsFresh current s u t h = elim (turn-eq-ok engine db opts current s u t) [
    | inl (same, _) ↦ subst IsFresh (sym same) h
    | inr (es, _, _, v) ↦
        visit_edges_rule engine db opts IsFresh current es
          (λ a b d m p k. Visit-IsFresh current es a b d m p k) s u v h
  ]

  round-IsFresh :
      (a b : Search) (i : Item) (t : Turn Search ⊥)
      → pop a ≡ some (i, b)
      → IsFresh a
      → turn engine db opts i b ≡ ok t
      → After pop (turn engine db opts) IsFresh (λ _. Unit) t
  round-IsFresh a b i (stop r) p h e = absurd r
  round-IsFresh a b i (next u) p h e =
      let popped = pop-Popped a b i p in
      turn-IsFresh i b u e (record {
        distinct = rw popped.results h.distinct;
        visited = rw (popped.results, popped.visited) h.visited;
      })

  -- If Get returns an entry by its id, no entry is reported twice by a traversal that returns.
  pub traverse-IsDistinct :
      (fuel : ℕ) (rs : List QueryResult)
      → traverse engine db opts fuel ≡ returned rs
      → IsDistinct (ids_of rs)
  traverse-IsDistinct fuel rs h =
      let (first, s, e, l, c) = traverse-stages engine db opts fuel rs h in
      let (kept, _) =
        loop_rule pop (turn engine db opts) IsFresh (λ _. Unit) round-IsFresh fuel
          (start_search engine db opts first) (next s) (start-IsFresh first e) l in
      rw
        (map-enrich_conflicts engine.edges db (λ (r : QueryResult). r.entry.id) set_conflicts-id
          s.results rs c)
        kept.distinct
