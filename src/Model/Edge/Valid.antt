-- ===== src/Model/Edge/Valid.antt =====
-- Edge.Validate of model/edge.go against the conditions that it checks.
use mathlib.Core.Path.{◌≡◌}
use known.Prelude.{false, ◌≢◌, ◌↔◌, refl, Option, none, some, [], ◌∷◌, arith, ok}
use known.Prelude.Float.{Float64, FloatOps}
use known.Prelude.Text.{Text, is_empty}
use known.Model.Types.{is_zero}
use known.Model.Edge.{Edge, validate, validate_type, outside_unit}

abbrev pub InUnit : FloatOps → Option Float64 → Type 0
InUnit fl none = Unit
InUnit fl (some w) = (fl.lt w (fl.of_int 0) ≡ false) × (fl.lt (fl.of_int 1) w ≡ false)

-- What an edge has to satisfy.
pub record IsWellFormed (fl : FloatOps) (e : Edge) : Type 0 where
  pub id : e.id ≢ 0
  pub from : e.from_id ≢ 0
  pub to : e.to_id ≢ 0
  pub apart : e.from_id ≢ e.to_id
  pub type : e.type ≢ []
  pub weight : InUnit fl e.weight

module _ (fl : FloatOps) where
  outside_unit_iff : (w : Option Float64) → (outside_unit fl w ≡ false) ↔ InUnit fl w
  outside_unit_iff none = (λ h. tt, λ h. refl)
  outside_unit_iff (some w) = ground arith

  is_empty_iff : (t : Text) → (is_empty t ≡ false) ↔ (t ≢ [])
  is_empty_iff [] = (λ h. cc h, λ h. absurd (h refl))
  is_empty_iff (c ∷ t) = (λ h e. cc e, λ h. refl)

  -- Validate accepts exactly the edges with three ids that are not zero, two ends that differ, a type
  -- that is not empty, and no weight or one that is neither below 0 nor above 1.
  pub validate_edge_iff : (e : Edge) → (validate fl e ≡ ok tt) ↔ IsWellFormed fl e
  unfolding validate validate_type is_zero
  validate_edge_iff e = ground (arith, outside_unit_iff e.weight, is_empty_iff e.type)
