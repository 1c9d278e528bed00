-- ===== src/Query/Vector/Examples.antt =====
-- Searches, scores and sorts of the entries 2 and 3.
use mathlib.Core.Path.{◌≡◌}
use mathlib.Core.List.{Permᴰ}
use known.Prelude.{ℕ, true, false, refl, List, [], ◌∷◌, ok}
use known.Prelude.Int.{pos}
use known.Prelude.Text.{Text, codes, contains, has_prefix}
use known.Model.Types.{Id128}
use known.Storage.{cosine}
use known.Query.Types
use known.Query.Types.{QueryResult, hit, direct, VectorOptions}
use known.Query.Score.{distance_to_score, bm25_to_score, clamp, freshness_score_at, blend_score}
use known.Query.Score.Bounds.{distance_to_score_bounds}
use known.Query.Sort.{sort_results_by_score}
use known.Query.Sort.Order.{
  sort_results_by_score-perm, sort_results_by_score-IsDescending, IsDescending,
}
use known.Query.Enrich.{
  enrich_conflicts, enrich_superseded, enrich_conflict, enrich_one_superseded, set_conflicts,
  set_superseded,
}
use known.Query.Vector.{
  fetch_limit, collect, rank, embed_query, search_vector, should_exclude, weighed, below_threshold,
}
use known.Query.Vector.Search.{IsAnswer, search_vector-IsAnswer, search_text-IsAnswer}
use known.Query.Text.{search_text}
use known.Fixture.Floats.{thousandths}
use known.Fixture.Store.{engine, entry_of}

abbrev as_is : Text → Text
as_is t = t

abbrev opts : VectorOptions
opts = record {
  text = codes "q";
  scope = codes "root";
  limit = pos 5;
  threshold = 500;
  recency_weight = 300;
  recency_half_life = pos 0;
  exclude_content = codes "zzz" ∷ [];
  metric = cosine;
}

abbrev scored : ℕ → ℕ → ℕ → QueryResult
scored id score distance = record (hit (entry_of id) direct 0) {
  score = score;
  distance = distance;
}

abbrev found : List QueryResult
found = scored 2 1000 200 ∷ scored 3 1000 500 ∷ []

search_vector_run : search_vector thousandths as_is 9 engine tt opts ≡ ok found
unfolding search_vector embed_query fetch_limit collect rank should_exclude weighed below_threshold
    distance_to_score clamp freshness_score_at blend_score sort_results_by_score enrich_conflicts
    enrich_conflict set_conflicts contains has_prefix
search_vector_run = refl

search_vector-IsAnswer_example :
    IsAnswer thousandths as_is 9 opts engine tt direct
      (λ d. distance_to_score thousandths d cosine)
      found
search_vector-IsAnswer_example =
    search_vector-IsAnswer thousandths as_is 9 opts engine tt found search_vector_run

abbrev all_opts : VectorOptions
all_opts = record opts { threshold = 0 }

abbrev by_text : ℕ → ℕ → ℕ → QueryResult
by_text id score distance = record (hit (entry_of id) Types.text 0) {
  score = score;
  distance = distance;
}

abbrev superseded_by_one : QueryResult → Id128 → QueryResult
superseded_by_one r id = record r { is_superseded = true; superseded_by = id ∷ [] }

abbrev found_text : List QueryResult
found_text = superseded_by_one (by_text 2 300 200) 1 ∷ superseded_by_one (by_text 3 300 500) 2 ∷ []

search_text_run : search_text thousandths as_is 9 engine tt all_opts ≡ ok found_text
unfolding search_text fetch_limit collect rank should_exclude weighed below_threshold bm25_to_score
    clamp freshness_score_at blend_score sort_results_by_score enrich_conflicts enrich_conflict
    set_conflicts enrich_superseded enrich_one_superseded set_superseded contains has_prefix
search_text_run = refl

search_text-IsAnswer_example :
    IsAnswer thousandths as_is 9 all_opts engine tt Types.text
      (bm25_to_score thousandths)
      found_text
search_text-IsAnswer_example =
    search_text-IsAnswer thousandths as_is 9 all_opts engine tt found_text search_text_run

abbrev unsorted : List QueryResult
unsorted = scored 3 750 500 ∷ scored 2 900 200 ∷ []

sort_results_by_score-perm_example : Permᴰ (sort_results_by_score thousandths unsorted) unsorted
sort_results_by_score-perm_example = sort_results_by_score-perm thousandths unsorted

sort_results_by_score-IsDescending_example :
    IsDescending thousandths (sort_results_by_score thousandths unsorted)
sort_results_by_score-IsDescending_example =
    sort_results_by_score-IsDescending thousandths unsorted (refl, (refl, tt))

distance_to_score_bounds_example :
    (thousandths.lt (distance_to_score thousandths 9000 cosine) (thousandths.of_int 0) ≡ false)
    × (thousandths.lt (thousandths.of_int 1) (distance_to_score thousandths 9000 cosine) ≡ false)
distance_to_score_bounds_example = distance_to_score_bounds thousandths 9000 cosine

abbrev replaced : List QueryResult
replaced = superseded_by_one (scored 3 750 500) 2 ∷ superseded_by_one (scored 2 900 200) 1 ∷ []
