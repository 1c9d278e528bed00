-- ===== src/Query/Score/Bounds.antt =====
-- The scores of query/query.go: their bounds.
use mathlib.Core.Path.{◌≡◌}
use known.Prelude.{false, inl, inr, arith, Bool-cases}
use known.Prelude.Float.{Float64, FloatOps}
use known.Storage.{SimilarityMetric}
use known.Query.Score.{clamp, raw_score, distance_to_score}

module _ (fl : FloatOps) where
  open fl use {lt, of_int}

  one_not_lt_zero : lt (of_int 1) (of_int 0) ≡ false
  one_not_lt_zero = elim (Bool-cases (lt (of_int 1) (of_int 0))) [
    | inl h ↦
        cc (fl.lt_trans (of_int 0) (of_int 1) (of_int 0) fl.zero_lt_one h, fl.lt_irrefl (of_int 0))
    | inr h ↦ h
  ]

  -- A clamped value, NaN included, is not below the lower bound nor above the upper one.
  pub clamp_bounds :
      (v lo hi : Float64)
      → lt hi lo ≡ false
      → (lt (clamp fl v lo hi) lo ≡ false) × (lt hi (clamp fl v lo hi) ≡ false)
  unfolding clamp
  clamp_bounds v lo hi h = ground (arith, fl.lt_irrefl lo, fl.lt_irrefl hi)

  -- A similarity score is neither below 0 nor above 1, whatever the distance and the metric.
  pub distance_to_score_bounds :
      (distance : Float64) (metric : SimilarityMetric)
      → (lt (distance_to_score fl distance metric) (of_int 0) ≡ false)
        × (lt (of_int 1) (distance_to_score fl distance metric) ≡ false)
  unfolding distance_to_score
  distance_to_score_bounds distance metric =
      clamp_bounds (raw_score fl distance metric) (of_int 0) (of_int 1) one_not_lt_zero
