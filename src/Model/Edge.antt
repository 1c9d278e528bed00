-- ===== src/Model/Edge.antt =====
-- model/edge.go: typed, weighted edges between entries.
pub mod Valid
use known.Prelude.{
  Bool, true, false, ◌||◌, Option, none, some, List, [], ◌∷◌, ◌==◌, any, Result, ok, errorf, wrap,
  fail_if, with_context, ◌>>◌, ◌>>=◌,
}
use known.Prelude.Float.{Float64, FloatOps}
use known.Prelude.Text.{Text, codes, text_eq, is_empty}
use known.Model.Types.{Id128, is_zero, Time, Value, Metadata, clone}

-- An edge type is any text.
abbrev pub EdgeType : Type 0
EdgeType = Text

abbrev pub edge_depends_on : EdgeType
edge_depends_on = codes "depends-on"

abbrev pub edge_contradicts : EdgeType
edge_contradicts = codes "contradicts"

abbrev pub edge_supersedes : EdgeType
edge_supersedes = codes "supersedes"

abbrev pub edge_elaborates : EdgeType
edge_elaborates = codes "elaborates"

abbrev pub edge_related_to : EdgeType
edge_related_to = codes "related-to"

abbrev pub predefined_edge_types : List EdgeType
predefined_edge_types =
    edge_depends_on ∷ edge_contradicts ∷ edge_supersedes ∷ edge_elaborates ∷ edge_related_to ∷ []

unfoldable pub is_predefined : EdgeType → Bool
unfolding text_eq
is_predefined et = any (text_eq et) predefined_edge_types

unfoldable pub validate_type : EdgeType → Result (Unit {0})
validate_type et = do fail_if (is_empty et) (errorf "edge type cannot be empty"); ok tt

pub record Edge : Type 0 where
  pub id : Id128
  pub from_id : Id128
  pub to_id : Id128
  pub type : EdgeType
  pub weight : Option Float64
  pub meta : Metadata
  pub created_at : Time

-- The id and the time that the source draws are arguments.
unfoldable pub new_edge : Id128 → Time → Id128 → Id128 → EdgeType → Edge
new_edge id now from to edge_type = record {
  id = id;
  from_id = from;
  to_id = to;
  type = edge_type;
  weight = none;
  meta = none;
  created_at = now;
}

module _ (fl : FloatOps) where
  abbrev pub outside_unit : Option Float64 → Bool
  outside_unit none = false
  outside_unit (some w) = fl.lt w (fl.of_int 0) || fl.lt (fl.of_int 1) w

  unfoldable pub validate : Edge → Result (Unit {0})
  unfolding validate_type is_zero
  validate e = do
    fail_if (is_zero e.id) (errorf "edge ID is required")
    fail_if (is_zero e.from_id) (errorf "edge from_id is required")
    fail_if (is_zero e.to_id) (errorf "edge to_id is required")
    fail_if (e.from_id == e.to_id) (errorf "edge cannot reference itself (from_id == to_id)")
    with_context "edge type" (validate_type e.type)
    fail_if (outside_unit e.weight) (errorf "edge weight must be between 0 and 1")
    ok tt

  abbrev pub default_edge_weight : Float64
  default_edge_weight = fl.decimal 5 10

  unfoldable pub effective_weight : Edge → Float64
  effective_weight e = elim e.weight [ none ↦ default_edge_weight | some w ↦ w ]

unfoldable pub with_weight : Edge → Float64 → Edge
with_weight e w = record e { weight = some w }

unfoldable pub with_meta : Edge → Metadata → Edge
with_meta e m = record e { meta = m }

unfoldable pub reverse :
    (List (Text × Value) → Result (List (Text × Value))) → Id128 → Time → Edge → Edge
unfolding clone
reverse round_trip id now e = record {
  id = id;
  from_id = e.to_id;
  to_id = e.from_id;
  type = e.type;
  weight = e.weight;
  meta = clone round_trip e.meta;
  created_at = now;
}
