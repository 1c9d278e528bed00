-- ===== src/Sqlite/Search/Similar.antt =====
-- SearchSimilar of storage/sqlite/entry.go against its specification: the nearest rows.
use mathlib.Core.Path.{◌≡◌}
use known.Prelude.{ℕ, ◌≤◌, true, false, ◌⊎◌, List, map, All, length, keep, member}
use known.Prelude.Float.{Float32}
use known.Prelude.Order.{IsOrdered}
use known.Prelude.Text.{Text}
use known.Model.Types.{Id128, Time}
use known.Model.Entry.{Entry}
use known.Storage.{SimilarityResult, SimilarityMetric}
use known.Sqlite.Tables.{EntryRow, Db, Json}
use known.Sqlite.Vec.{VectorOps}
use known.Sqlite.Search.{candidate_ids, fetched, candidates, nearer_result}
use known.Sqlite.Search.Nearest.{dist, IsNear}

abbrev result_ids : List SimilarityResult → List Id128
result_ids = map (λ (r : SimilarityResult). r.entry.id)

module _ (json : Json) (now : Time) (v : VectorOps) (metric : SimilarityMetric)
    (query : List Float32) (scope : Text) (db : Db) where
  -- An answer of the search: not too many results, each a row that is considered with its distance,
  -- in the order of the distances, and among them the given row, unless none of them is farther.
  pub record IsAnswer (n : ℕ) (row : EntryRow) (rs : List SimilarityResult) : Type 0 where
    pub few : length rs ≤ n
    pub near : All (IsNear json now v metric query scope db) rs
    pub ordered : IsOrdered (nearer_result json now v) rs
    pub nearest :
        (member row.id (result_ids rs) ≡ true)
        ⊎ All
            (λ (r : SimilarityResult).
              v.ops.lt (dist json now v metric query scope db row) r.distance ≡ false)
            rs

  abbrev IsNumber : EntryRow → Type 0
  IsNumber row = v.ops.is_nan (dist json now v metric query scope db row) ≡ false

  -- The rows that the second pass finds.
  abbrev found_rows : ℕ → List EntryRow
  found_rows n =
      keep (λ r. member r.id (candidate_ids (candidates json now v db query scope metric n)))
        db.entries

  abbrev results_of : ℕ → List Entry → List SimilarityResult
  results_of n es = fetched (candidates json now v db query scope metric n) es
