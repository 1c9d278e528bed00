-- ===== src/Query/Sort.antt =====
-- sortResultsByScore of query/vector.go: insertion sort by descending score.
pub mod Order
use mathlib.Core.List.{reverse}
use known.Prelude.{List, [], ◌∷◌, if◌then◌else◌}
use known.Prelude.Float.{FloatOps}
use known.Query.Types.{QueryResult}

module _ (fl : FloatOps) where
  -- The inner loop: `x` moves left past smaller scores. The list is the sorted prefix from its end.
  sift : QueryResult → List QueryResult → List QueryResult
  sift x [] = x ∷ []
  sift x (y ∷ before) = if fl.lt y.score x.score then y ∷ sift x before else x ∷ y ∷ before

  -- The outer loop: the sorted prefix, from its end, and what is still to be inserted.
  sort_from : List QueryResult → List QueryResult → List QueryResult
  unfolding sift
  sort_from before [] = reverse before
  sort_from before (x ∷ after) = sort_from (sift x before) after

  unfoldable pub sort_results_by_score : List QueryResult → List QueryResult
  unfolding sort_from
  sort_results_by_score results = sort_from [] results
