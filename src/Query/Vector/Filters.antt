-- ===== src/Query/Vector/Filters.antt =====
-- What the vector and the text search let through: the exclusions, the threshold and the limit.
use mathlib.Core.Path.{◌≡◌}
use known.Prelude.{
  ◌≤◌, false, ◌&&◌, refl, inl, inr, List, [], ◌∷◌, arith, All, All-take, if◌then◌else◌, length,
  length-take, take, ltb, Bool-cases,
}
use known.Prelude.Float.{Float64, FloatOps}
use known.Prelude.Int.{or_default}
use known.Prelude.Text.{Text}
use known.Model.Types.{Time}
use known.Storage.{SimilarityResult}
use known.Query.Types.{QueryResult, ReachMethod, VectorOptions}
use known.Query.Sort.{sort_results_by_score}
use known.Query.Sort.Order.{All-sort}
use known.Query.Vector.{should_exclude, weighed, below_threshold, collect, rank}

module _ (fl : FloatOps) (to_lower : Text → Text) (now : Time) (opts : VectorOptions) where
  -- A result that passes: it is not excluded, not below the threshold, and scored from its distance.
  pub record Passes (reach : ReachMethod) (base : Float64 → Float64) (r : QueryResult)
      : Type 0 where
    pub included : should_exclude to_lower r.entry.content opts.exclude_content ≡ false
    pub threshold : below_threshold fl to_lower now opts r.score ≡ false
    pub scored : r.score ≡ weighed fl to_lower now opts r.entry (base r.distance)
    pub method : r.reach ≡ reach

  pub collect-Passes :
      (reach : ReachMethod) (base : Float64 → Float64) (srs : List SimilarityResult)
      → All (Passes reach base) (collect fl to_lower now opts reach base srs)
  unfolding collect
  collect-Passes reach base [] = tt
  collect-Passes reach base (sr ∷ rest) =
      let others = collect-Passes reach base rest in
      elim (Bool-cases (should_exclude to_lower sr.entry.content opts.exclude_content)) [
        | inl x ↦ rw x others
        | inr x ↦
            elim (Bool-cases (
              below_threshold fl to_lower now opts
                (weighed fl to_lower now opts sr.entry (base sr.distance)))) [
                  | inl t ↦ rw (x, t) others
                  | inr t ↦
                      rw (x, t)
                        (
                          record { included = x; threshold = t; scored = refl; method = refl },
                          others,
                        )
                ]
      ]

  pub rank-All :
      (P : QueryResult → Type 0) (rs : List QueryResult)
      → All P rs
      → All P (rank fl to_lower now opts rs)
  unfolding rank
  rank-All P rs h =
      elim (Bool-cases (fl.lt (fl.of_int 0) opts.recency_weight && ltb 1 (length rs))) [
        | inl sorts ↦ rw sorts (cut (sort_results_by_score fl rs) (All-sort fl P rs h))
        | inr keeps ↦ rw keeps (cut rs h)
      ]
    where
      cut :
          (xs : List QueryResult)
          → All P xs
          → All P (
              if ltb (or_default opts.limit 10) (length xs)
              then take (or_default opts.limit 10) xs
              else xs)
      cut xs k = elim (Bool-cases (ltb (or_default opts.limit 10) (length xs))) [
        | inl b ↦ rw b (All-take P (or_default opts.limit 10) xs k)
        | inr b ↦ rw b k
      ]

  pub length-rank :
      (rs : List QueryResult) → length (rank fl to_lower now opts rs) ≤ or_default opts.limit 10
  unfolding rank
  length-rank rs =
      elim (Bool-cases (fl.lt (fl.of_int 0) opts.recency_weight && ltb 1 (length rs))) [
        | inl sorts ↦ rw sorts (cut (sort_results_by_score fl rs))
        | inr keeps ↦ rw keeps (cut rs)
      ]
    where
      cut :
          (xs : List QueryResult)
          → length (
              if ltb (or_default opts.limit 10) (length xs)
              then take (or_default opts.limit 10) xs
              else xs)
            ≤ or_default opts.limit 10
      cut xs = elim (Bool-cases (ltb (or_default opts.limit 10) (length xs))) [
        | inl b ↦ rw b (omega (arith, length-take (or_default opts.limit 10) xs))
        | inr b ↦ rw b (ground arith)
      ]
