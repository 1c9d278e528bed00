-- ===== src/Query/Vector.antt =====
-- query/vector.go: similarity search. `to_lower` is strings.ToLower, whose tables of Unicode are
-- the library's; `now` is the time of the call.
pub mod Filters
pub mod Search
pub mod Examples
use known.Prelude.{
  ℕ, ◌*◌, Bool, true, false, ◌&&◌, Option, none, some, List, [], ◌∷◌, any, take, length, ltb, leb,
  if◌then◌else◌, Result, ok, err, no_embedder, errorf, fail_if, with_context, ◌>>=◌, ◌>>◌,
}
use known.Prelude.Float.{Float64, FloatOps}
use known.Prelude.Int.{ℤ, or_default}
use known.Prelude.Text.{Text, is_empty, contains}
use known.Model.Types.{Time}
use known.Model.Entry.{Entry}
use known.Storage.{SimilarityResult}
use known.Query.Types.{QueryResult, hit, ReachMethod, direct, VectorOptions, Embedder, Engine}
use known.Query.Score.{distance_to_score, freshness_score_at, blend_score}
use known.Query.Sort.{sort_results_by_score}
use known.Query.Enrich.{enrich_conflicts}

unfoldable pub should_exclude : (Text → Text) → Text → List Text → Bool
should_exclude to_lower content excludes =
    let lower = to_lower content in any (λ ex. contains lower (to_lower ex)) excludes

-- Room for what the exclusion filter drops.
unfoldable pub fetch_limit : ℕ → List Text → ℕ
fetch_limit limit [] = limit
fetch_limit limit (x ∷ xs) = if ltb (limit * 3) 30 then 30 else limit * 3

module _ (fl : FloatOps) (to_lower : Text → Text) (now : Time) where
  open fl use {lt, of_int}

  -- The score of a candidate, blended with its freshness if recency is weighed.
  unfoldable pub weighed : VectorOptions → Entry → Float64 → Float64
  weighed opts entry score =
      if lt (of_int 0) opts.recency_weight
      then blend_score fl score
          (freshness_score_at fl now entry.created_at entry.freshness.observed_at
            opts.recency_half_life)
          opts.recency_weight
      else score

  unfoldable pub below_threshold : VectorOptions → Float64 → Bool
  below_threshold opts score = lt (of_int 0) opts.threshold && lt score opts.threshold

  -- The loop over the candidates, for a base score and a reach method.
  unfoldable pub collect :
      VectorOptions → ReachMethod → (Float64 → Float64) → List SimilarityResult → List QueryResult
  unfolding weighed below_threshold
  collect opts reach base [] = []
  collect opts reach base (sr ∷ rest) =
      let others = collect opts reach base rest in
      let score = weighed opts sr.entry (base sr.distance) in
      if should_exclude to_lower sr.entry.content opts.exclude_content
      then others
      else if below_threshold opts score
      then others
      else record (hit sr.entry reach 0) { score = score; distance = sr.distance } ∷ others

  -- Sorts if recency was weighed, and cuts to the limit.
  unfoldable pub rank : VectorOptions → List QueryResult → List QueryResult
  rank opts results =
      let sorted =
        if lt (of_int 0) opts.recency_weight && ltb 1 (length results)
        then sort_results_by_score fl results
        else results in
      let limit = or_default opts.limit 10 in
      if ltb limit (length sorted) then take limit sorted else sorted

  pub embed_query : Option Embedder → Text → Result (List ℕ)
  embed_query none text = err no_embedder
  embed_query (some embedder) text = with_context "embed query" (embedder.embed text)

  module _ {S : Type 0} (engine : Engine S) (db : S) where
    unfoldable pub search_vector : VectorOptions → Result (List QueryResult)
    unfolding collect rank embed_query
    search_vector opts = do
      fail_if (is_empty opts.text) (errorf "query text is required")
      fail_if (is_empty opts.scope) (errorf "scope is required")
      query_vec ← embed_query engine.embedder opts.text
      sim_results ← with_context "search similar" (
          engine.entries.search_similar db query_vec opts.scope opts.metric
            (fetch_limit (or_default opts.limit 10) opts.exclude_content))
      let found = collect opts direct (λ d. distance_to_score fl d opts.metric) sim_results
      with_context "enrich conflicts" (enrich_conflicts engine.edges db (rank opts found))
