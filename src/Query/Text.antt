-- ===== src/Query/Text.antt =====
-- query/text.go: full-text search. It scores, filters, sorts and cuts as the vector search does,
-- from BM25 ranks.
use known.Prelude.{List, Result, errorf, fail_if, with_context, ◌>>=◌, ◌>>◌}
use known.Prelude.Float.{FloatOps}
use known.Prelude.Int.{or_default}
use known.Prelude.Text.{Text, is_empty}
use known.Model.Types.{Time}
use known.Query.Types
use known.Query.Types.{QueryResult, VectorOptions, Engine}
use known.Query.Score.{bm25_to_score}
use known.Query.Enrich.{enrich_conflicts, enrich_superseded}
use known.Query.Vector.{fetch_limit, collect, rank}

module _ (fl : FloatOps) (to_lower : Text → Text) (now : Time) where
  module _ {S : Type 0} (engine : Engine S) (db : S) where
    unfoldable pub search_text : VectorOptions → Result (List QueryResult)
    search_text opts = do
      fail_if (is_empty opts.text) (errorf "query text is required")
      fail_if (is_empty opts.scope) (errorf "scope is required")
      sim_results ← with_context "search text" (
          engine.entries.search_text db opts.text opts.scope
            (fetch_limit (or_default opts.limit 10) opts.exclude_content))
      let found = collect fl to_lower now opts Types.text (bm25_to_score fl) sim_results
      enriched ←
          with_context "enrich conflicts"
            (enrich_conflicts engine.edges db (rank fl to_lower now opts found))
      with_context "enrich superseded" (enrich_superseded engine.edges db enriched)
