-- ===== src/Query/Score.antt =====
-- The scores of query/query.go. A product of duration and float is the machine's.
pub mod Bounds
use known.Prelude.{ℕ, ◌-◌, Bool, true, false, ltb, ◌==◌, if◌then◌else◌}
use known.Prelude.Float.{Float64, FloatOps}
use known.Prelude.Int.{ℤ, or_default}
use known.Model.Types.{Time}
use known.Storage.{SimilarityMetric, cosine, l2, inner_product}

abbrev pub seven_days : ℕ
seven_days = 604_800_000_000_000

module _ (fl : FloatOps) where
  open fl use {lt, add, sub, mul, div, abs, exp, neg, of_int, ln2}

  unfoldable pub clamp : Float64 → Float64 → Float64 → Float64
  clamp v lo hi = if lt v lo then lo else if lt hi v then hi else v

  raw_score : Float64 → SimilarityMetric → Float64
  raw_score distance cosine = sub (of_int 1) (div distance (of_int 2))
  raw_score distance l2 = div (of_int 1) (add (of_int 1) distance)
  raw_score distance inner_product = div (of_int 1) (add (of_int 1) distance)

  unfoldable pub distance_to_score : Float64 → SimilarityMetric → Float64
  unfolding raw_score clamp
  distance_to_score distance metric = clamp (raw_score distance metric) (of_int 0) (of_int 1)

  unfoldable pub bm25_to_score : Float64 → Float64
  bm25_to_score rank =
      if lt rank (of_int 0) then div (of_int 1) (add (of_int 1) (abs rank)) else of_int 0

  -- freshnessScoreAt at the time `now`.
  unfoldable pub freshness_score_at : Time → Time → Time → ℤ → Float64
  freshness_score_at now created_at observed_at half_life =
      let ref = if observed_at == 0 then created_at else observed_at in
      if ltb now ref
      then of_int 1
      else exp (div (mul (neg ln2) (of_int (now - ref))) (of_int (or_default half_life seven_days)))

  unfoldable pub freshness_score : Time → Time → ℤ → Float64
  unfolding freshness_score_at
  freshness_score now created_at half_life = freshness_score_at now created_at 0 half_life

  unfoldable pub blend_score : Float64 → Float64 → Float64 → Float64
  unfolding clamp
  blend_score similarity freshness recency_weight =
      let w = clamp recency_weight (of_int 0) (of_int 1) in
      add (mul (sub (of_int 1) w) similarity) (mul w freshness)
