-- ===== src/Query/Fusion.antt =====
-- fuseByRRF of query/hybrid.go: Reciprocal Rank Fusion of two result lists.
-- The map `fused` is an association list; the order in which Go ranges over it is the argument
-- `range`.
use known.Prelude.{ℕ, suc, ◌+◌, Option, none, some, List, [], ◌∷◌, map, ltb, ◌==◌, if◌then◌else◌}
use known.Prelude.Float.{Float64, FloatOps}
use known.Model.Types.{Id128}
use known.Query.Types
use known.Query.Types.{QueryResult}
use known.Query.Sort.{sort_results_by_score}

pub record FusedEntry : Type 0 where
  pub result : QueryResult
  pub rrf_score : Float64
  pub best_rank : ℕ

abbrev pub Fused : Type 0
Fused = List (Id128 × FusedEntry)

pub find : Id128 → Fused → Option FusedEntry
find id [] = none
find id ((k, fe) ∷ m) = if k == id then some fe else find id m

-- `fused[id] = fe`
pub put : Id128 → FusedEntry → Fused → Fused
put id fe [] = (id, fe) ∷ []
put id fe ((k, old) ∷ m) = if k == id then (k, fe) ∷ m else (k, old) ∷ put id fe m

module _ (fl : FloatOps) where
  -- 1 / (k + rank + 1)
  unfoldable pub rank_score : ℕ → ℕ → Float64
  rank_score k rank = fl.div (fl.of_int 1) (fl.of_int (k + rank + 1))

  pub fuse_vector : ℕ → ℕ → List QueryResult → Fused → Fused
  fuse_vector k rank [] m = m
  fuse_vector k rank (r ∷ rs) m =
      fuse_vector k (suc rank) rs
        (put r.entry.id (record { result = r; rrf_score = rank_score k rank; best_rank = rank }) m)

  pub better_reach : ℕ → FusedEntry → FusedEntry
  better_reach rank fe =
      if ltb rank fe.best_rank
      then record fe { best_rank = rank; result = record fe.result { reach = Types.text } }
      else fe

  -- An entry of the vector results gains the score of its text rank, a new one is added.
  pub merge_text : ℕ → ℕ → QueryResult → Option FusedEntry → FusedEntry
  unfolding better_reach
  merge_text k rank r (some fe) =
      better_reach rank (record fe { rrf_score = fl.add fe.rrf_score (rank_score k rank) })
  merge_text k rank r none = record {
    result = record r { reach = Types.text };
    rrf_score = rank_score k rank;
    best_rank = rank;
  }

  pub fuse_text : ℕ → ℕ → List QueryResult → Fused → Fused
  unfolding merge_text
  fuse_text k rank [] m = m
  fuse_text k rank (r ∷ rs) m =
      fuse_text k (suc rank) rs (put r.entry.id (merge_text k rank r (find r.entry.id m)) m)

  pub scored : Id128 × FusedEntry → QueryResult
  scored (id, fe) = record fe.result { score = fe.rrf_score }

  unfoldable pub fuse_by_rrf :
      (Fused → Fused) → List QueryResult → List QueryResult → ℕ → List QueryResult
  unfolding fuse_vector fuse_text find put scored
  fuse_by_rrf range vector_results text_results k =
      sort_results_by_score fl
        (map scored (range (fuse_text k 0 text_results (fuse_vector k 0 vector_results []))))
