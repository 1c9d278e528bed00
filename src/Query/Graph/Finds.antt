-- ===== src/Query/Graph/Finds.antt =====
-- Traverse of query/graph.go: what it finds, against the walks from the start.
use mathlib.Core.Path.{◌≡◌}
use mathlib.Core.List.{Memᴰ}
use mathlib.Core.List.Memᴰ
use known.Prelude.{
  ℕ, ◌≤◌, refl, sym, subst, ap, ◌∙◌, ◌⊎◌, inl, inr, List, [], arith, All, length, member, ==_iff,
  Bool-cases, ok, ok-injective, Result-cases,
}
use known.Model.Types.{Id128}
use known.Model.Edge.{Edge}
use known.Model.Entry.{Entry}
use known.Query.Types.{QueryResult, Engine, GraphOptions}
use known.Query.Bfs.{returned, next}
use known.Query.Bfs.Rules.{loop_rule}
use known.Query.Enrich.Keeps.{mem-enrich_conflicts}
use known.Query.Graph.{Item, pop, turn, start_results, start_search, traverse}
use known.Query.Graph.Visits.{pop-none}
use known.Query.Graph.Walks.{max, Walk}
use known.Query.Graph.Sound.{traverse-stages}
use known.Query.Graph.Known.{mem-All, Known, at_start, reached}
use known.Query.Graph.Complete.{IsSearched, round-IsSearched, Walk-Known}

module _ {S : Type 0} (engine : Engine S) (db : S)
    (named : (id : Id128) (entry : Entry) → engine.entries.get db id ≡ ok entry → entry.id ≡ id)
    (opts : GraphOptions) where
  abbrev IsStart : QueryResult → Type 0
  IsStart r = (r.entry.id ≡ opts.start_id) × (r.depth ≡ 0)

  start_results-IsStart :
      (first : List QueryResult) → start_results engine db opts ≡ ok first → All IsStart first
  unfolding start_results
  start_results-IsStart first h = elim (Bool-cases opts.include_start) [
    | inl on ↦ elim (Result-cases (engine.entries.get db opts.start_id)) [
      | inl (entry, g) ↦
          subst (All IsStart) (ok-injective (rw (on, g) at h))
            ((named opts.start_id entry g, refl), tt)
      | inr (x, g) ↦ cc (rw (on, g) at h)
    ]
    | inr off ↦ subst (All IsStart) (ok-injective (rw off at h)) tt
  ]

  start-Known :
      (first : List QueryResult) (id : Id128) (k : ℕ)
      → All IsStart first
      → Known engine db named opts (start_search engine db opts first) id k
      → (id ≡ opts.start_id) × (k ≡ 0)
  unfolding start_search
  start-Known first id k h (at_start e z) = (e, z)
  start-Known first id k h (reached r m e d) =
      let (a, b) = mem-All IsStart first r m h in (sym e ∙ a, sym d ∙ b)

  start-IsSearched :
      (first : List QueryResult)
      → All IsStart first
      → IsSearched engine db named opts (start_search engine db opts first)
  unfolding start_search member
  start-IsSearched first h = record {
    near = (λ id k known. zero_le (start-Known first id k h known).1, tt);
    layered = (tt, tt);
    items = λ i m.
        at_start (ap (λ (x : Item). x.entry_id) (Memᴰ.eq_of_singleton m))
          (ap (λ (x : Item). x.depth) (Memᴰ.eq_of_singleton m));
    seen = λ id entry m g. (0, at_start (ground (arith, ==_iff opts.start_id id)) refl);
    closed = λ id k known lt.
        let (e, z) = start-Known first id k h known in
        inl (
          record { entry_id = opts.start_id; depth = 0; edge_path = [] },
          Memᴰ.head refl,
          sym e,
          sym z,
        );
  }
    where
      zero_le : {k : ℕ} → k ≡ 0 → k ≤ 1
      zero_le e = omega arith

  -- If Get returns an entry by its id, then in a traversal that returns the end of every walk from
  -- the start within the depth is the start, or the entry of a result whose depth is at most the
  -- length of the walk.
  pub traverse_finds :
      (fuel : ℕ) (rs : List QueryResult) (p : List Edge) (n : Id128)
      → traverse engine db opts fuel ≡ returned rs
      → Walk engine db opts p n
      → length p ≤ max engine db opts
      → (n ≡ opts.start_id)
        ⊎ ((r : QueryResult) × Memᴰ r rs × (r.entry.id ≡ n) × (r.depth ≤ length p))
  traverse_finds fuel rs p n h w l =
      let (first, s, e, run, c) = traverse-stages engine db opts fuel rs h in
      let (searched, empty) =
        loop_rule pop (turn engine db opts) (IsSearched engine db named opts) (λ _. Unit)
          (round-IsSearched engine db named opts) fuel (start_search engine db opts first) (next s)
          (start-IsSearched first (start_results-IsStart first e)) run in
      let (k, known, le) = Walk-Known engine db named opts s searched (pop-none s empty) w l in
      elim known [
        | at_start a z ↦ inl a
        | reached r m a d ↦
            let (r', m', same, depth) = mem-enrich_conflicts engine.edges db s.results rs r c m in
            inr (r', m', ap (λ (x : Entry). x.id) same ∙ a, omega arith)
      ]
