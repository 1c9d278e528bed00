-- ===== src/Query/Graph/Sound.antt =====
-- Traverse of query/graph.go: the results, against the walks from the start.
use mathlib.Core.Path.{◌≡◌}
use known.Prelude.{
  ℕ, refl, sym, subst, inl, inr, List, [], ◌∷◌, arith, All, Bool-cases, ok-injective, ok,
  Result-cases, with_context, with_context-eq-ok,
}
use known.Model.Types.{is_zero}
use known.Model.Entry.{Entry}
use known.Query.Types.{QueryResult, Engine, GraphOptions}
use known.Query.Bfs.{returned, next, stop, loop}
use known.Query.Bfs.Rules.{loop_rule}
use known.Query.Bfs.Runs.{lift-eq-returned, Run-cases}
use known.Query.Enrich.{enrich_conflicts, set_conflicts}
use known.Query.Enrich.Keeps.{All-enrich_conflicts}
use known.Query.Graph.{Search, pop, turn, start_results, start_search, finish, traverse}
use known.Query.Graph.Visits.{pop-Popped}
use known.Query.Graph.Walks.{here, IsItem, IsReached, IsSound, turn-IsSound}

module _ {S : Type 0} (engine : Engine S) (db : S) (opts : GraphOptions) where
  -- A traversal that returns went through its four stages.
  pub traverse-stages :
      (fuel : ℕ) (rs : List QueryResult)
      → traverse engine db opts fuel ≡ returned rs
      → (first : List QueryResult) × (s : Search) × (start_results engine db opts ≡ ok first)
        × (loop pop (turn engine db opts) fuel (start_search engine db opts first)
            ≡ returned (next s))
        × (enrich_conflicts engine.edges db s.results ≡ ok rs)
  unfolding traverse finish
  traverse-stages fuel rs h = elim (Bool-cases (is_zero opts.start_id)) [
    | inl z ↦ cc (rw (z, traverse) at h)
    | inr z ↦ elim (Result-cases (start_results engine db opts)) [
      | inl (first, e) ↦
          elim (Run-cases
            (loop pop (turn engine db opts) fuel (start_search engine db opts first))) [
              | inl (next s, l) ↦ (
                first,
                s,
                e,
                l,
                with_context-eq-ok "enrich conflicts" (enrich_conflicts engine.edges db s.results) (
                    lift-eq-returned
                      (with_context "enrich conflicts" (enrich_conflicts engine.edges db s.results))
                      (rw (z, e, l, traverse) at h)),
              )
              | inl (stop r, l) ↦ absurd r
              | inr (inl (x, l)) ↦ cc (rw (z, e, l, traverse) at h)
              | inr (inr l) ↦ cc (rw (z, e, l, traverse) at h)
            ]
      | inr (x, e) ↦ cc (rw (z, e, traverse) at h)
    ]
  ]

  set_conflicts-IsReached :
      (r : QueryResult) (cs : List Entry)
      → IsReached engine db opts r
      → IsReached engine db opts (set_conflicts r cs)
  unfolding set_conflicts
  set_conflicts-IsReached r [] h = h
  set_conflicts-IsReached r (c ∷ cs) h = record {
    id = h.id;
    walk = h.walk;
    entry = h.entry;
    depth = h.depth;
    bound = h.bound;
    method = h.method;
  }

  start_results-IsReached :
      (first : List QueryResult)
      → start_results engine db opts ≡ ok first
      → All (IsReached engine db opts) first
  unfolding start_results
  start_results-IsReached first h = elim (Bool-cases opts.include_start) [
    | inl on ↦ elim (Result-cases (engine.entries.get db opts.start_id)) [
      | inl (entry, g) ↦ subst (All (IsReached engine db opts)) (ok-injective (rw (on, g) at h)) (
        record {
          id = opts.start_id;
          walk = here refl refl;
          entry = g;
          depth = refl;
          bound = omega arith;
          method = refl;
        },
        tt,
      )
      | inr (x, g) ↦ cc (rw (on, g) at h)
    ]
    | inr off ↦ subst (All (IsReached engine db opts)) (ok-injective (rw off at h)) tt
  ]

  start_search-IsSound :
      (first : List QueryResult)
      → All (IsReached engine db opts) first
      → IsSound engine db opts (start_search engine db opts first)
  unfolding start_search
  start_search-IsSound first h = record {
    items = (record { walk = here refl refl; depth = refl; bound = omega arith }, tt);
    results = h;
  }

  -- Every result of a traversal that returns is an entry of the store at the end of a walk from the
  -- start along stored edges of the types asked for, its depth is the length of the walk, at most the
  -- depth asked for, and its edge path is the walk.
  pub traverse-IsReached :
      (fuel : ℕ) (rs : List QueryResult)
      → traverse engine db opts fuel ≡ returned rs
      → All (IsReached engine db opts) rs
  traverse-IsReached fuel rs h =
      let (first, s, e, l, c) = traverse-stages fuel rs h in
      let (sound, _) =
        loop_rule pop (turn engine db opts) (IsSound engine db opts) (λ _. Unit)
          (λ a b i t p k u.
            let popped = pop-Popped a b i p in
            let queued = subst (All (IsItem engine db opts)) popped.queue k.items in
            let (v, same, sv) =
              turn-IsSound engine db opts i b t queued.0
                (record {
                  items = queued.1;
                  results = subst (All (IsReached engine db opts)) (sym popped.results) k.results;
                })
                u in
            rw same sv)
          fuel (start_search engine db opts first) (next s)
          (start_search-IsSound first (start_results-IsReached first e)) l in
      All-enrich_conflicts engine.edges db (IsReached engine db opts)
        (λ r cs k. set_conflicts-IsReached r cs k) s.results rs c sound.results
