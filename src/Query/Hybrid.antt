-- ===== src/Query/Hybrid.antt =====
-- SearchHybrid of query/hybrid.go: vector search, text fusion, graph expansion, demotion of
-- superseded entries and the cut to the total limit.
use known.Prelude.{
  ℕ, Bool, true, false, ◌&&◌, List, [], ◌∷◌, ◌++◌, map, ltb, length, take, if◌then◌else◌, Result,
  ok, err, with_context,
}
use known.Prelude.Float.{FloatOps}
use known.Prelude.Int.{ℤ, or_default, is_positive, pos_part}
use known.Prelude.Text.{Text}
use known.Model.Types.{Id128, Time}
use known.Query.Types.{QueryResult, HybridOptions, rrf_k, Engine, filter_of}
use known.Query.Bfs.{Run, returned, Turn, next, stop, ◌>>=◌, lift, in_context}
use known.Query.Enrich.{enrich_conflicts, enrich_superseded}
use known.Query.Vector.{search_vector}
use known.Query.Text.{search_text}
use known.Query.Sort.{sort_results_by_score}
use known.Query.Expand.{Search, expand_from_entry}
use known.Query.Fusion.{Fused, fuse_by_rrf}

-- `if limit > 0 && len(rs) > limit { rs = rs[:limit] }`
unfoldable pub cap_results : ℤ → List QueryResult → List QueryResult
cap_results limit rs =
    if is_positive limit && ltb (pos_part limit) (length rs) then take (pos_part limit) rs else rs

abbrev pub result_ids : List QueryResult → List Id128
result_ids = map (λ (r : QueryResult). r.entry.id)

-- What is found so far, and the ids that are seen.
pub record Gathered : Type 0 where
  pub all_results : List QueryResult
  pub seen : List Id128

gather : Gathered → Turn Search ⊥ → Gathered
gather g (next s) = record { all_results = g.all_results ++ s.results; seen = s.seen }
gather g (stop r) = absurd r

module _ (fl : FloatOps) where
  unfoldable pub demote : QueryResult → QueryResult
  demote r = if r.is_superseded then record r { score = fl.mul r.score (fl.decimal 1 10) } else r

  -- The order of the results after the superseded ones are known.
  unfoldable pub reorder : Bool → List QueryResult → List QueryResult
  unfolding demote
  reorder true rs = rs
  reorder false rs = sort_results_by_score fl (map demote rs)

  module _ (to_lower : Text → Text) (now : Time) (range : Fused → Fused) {S : Type 0}
      (engine : Engine S) (db : S) (opts : HybridOptions) where
    -- Text search is best effort: its errors, and an empty answer, leave the vector results.
    fuse_with : List QueryResult → Result (List QueryResult) → List QueryResult
    fuse_with vector_results (ok (t ∷ ts)) =
        fuse_by_rrf fl range vector_results (t ∷ ts) (rrf_k opts)
    fuse_with vector_results (ok []) = vector_results
    fuse_with vector_results (err e) = vector_results

    unfoldable pub seeds : List QueryResult → List QueryResult
    unfolding fuse_with
    seeds vector_results =
        if opts.text_search
        then cap_results opts.vector.limit (
            fuse_with vector_results (
              search_text fl to_lower now engine db
                (record opts.vector { threshold = fl.of_int 0 })))
        else vector_results

    unfoldable pub expand_all : ℕ → Gathered → List QueryResult → Run Gathered
    unfolding gather
    expand_all fuel g [] = returned g
    expand_all fuel g (r ∷ rs) = do
      t ← in_context "hybrid expand" (
          expand_from_entry fl engine db (or_default opts.expand_depth 1) opts.expand_direction
            (filter_of opts.expand_edge_types) opts.expand_edge_types r.entry.id r.score g.seen
            fuel)
      expand_all fuel (gather g t) rs

    unfoldable pub search_hybrid : ℕ → Run (List QueryResult)
    search_hybrid fuel = do
      vector_results ←
          lift (
            with_context "hybrid vector phase"
              (search_vector fl to_lower now engine db opts.vector))
      let starts = seeds vector_results
      g ← expand_all fuel (record { all_results = starts; seen = result_ids starts }) starts
      enriched ←
          lift (with_context "enrich conflicts" (enrich_conflicts engine.edges db g.all_results))
      marked ← lift (
          with_context "enrich superseded"
            (enrich_superseded engine.edges db (sort_results_by_score fl enriched)))
      returned (cap_results opts.total_limit (reorder opts.include_superseded marked))
